-- ===== src/Workflow/Store/Within.antt =====
-- `ExecuteRunTx` of go/internal/workflow/store.go: a command on a run inside a transaction of the
-- caller, who commits it or rolls it back. A nil transaction is not modelled.
use basic.Base.{
  ◌≡◌, refl, ◌⊎◌, inl, inr, Option, none, some, String, Result, Check, ok, err, List, ◌++◌,
}
use basic.Workflow.Types.{Err, Env, command_conflict}
use basic.Workflow.Run.Command.{RunCommand, envelope, validate_run_command}
use basic.Workflow.Store.Tables.{
  CommandResult, CommandRow, Tables, Store, Backend, StoreErr, sentinel, replay_after_conflict,
  violation, no_rows, unmarshalable, undecodable, injected, Tx,
}
use basic.Workflow.Store.Commands.{replay_after}
use basic.Workflow.Store.Execute.{execute_run_transaction, finish, submit, execute_run}

-- A command that came first is a conflict, since this transaction cannot be left to answer from it.
abbrev as_conflict :
    Result StoreErr (CommandResult × Tables) → Result StoreErr (CommandResult × Tables)
as_conflict (err replay_after_conflict) = err (sentinel command_conflict)
as_conflict r = r

module _ (s : Store) (b : Backend) (env : Env) (arrived : List CommandRow) where
  abbrev enter : Check Err → Option String → (String → Tx CommandResult) → Tx CommandResult
  enter (err e) request transaction db = err (sentinel e)
  enter (ok _) none transaction db = err unmarshalable
  enter (ok _) (some request) transaction db = as_conflict (transaction (b.sha256_hex request) db)

  unfoldable pub execute_run_tx : RunCommand → Tx CommandResult
  unfolding execute_run_transaction
  execute_run_tx c =
      enter (validate_run_command env c) (b.run_request c)
        (execute_run_transaction s b env arrived c)

  -- What `ExecuteRun` answers where a transaction of the caller would have ended so.
  abbrev pub Agrees :
      String
      → Option String
      → Tables
      → Result StoreErr (CommandResult × Tables)
      → Result StoreErr CommandResult × Tables
      → Type 0
  Agrees id request db (ok (out, db')) answer = answer ≡ (ok out, db')
  Agrees id request db (err e) answer =
      (answer ≡ (err e, db))
      ⊎ ((e ≡ sentinel command_conflict)
          × (text : String) × (request ≡ some text)
          × (answer ≡ (
            replay_after (b.columns.uuid id) (b.sha256_hex text) (db.commands ++ arrived),
            db,
          )))

  finish-Agrees :
      (id text : String) (request : Option String) (db : Tables)
      (r : Result StoreErr (CommandResult × Tables))
      → request ≡ some text
      → Agrees id request db
          (as_conflict r)
          (finish s b env arrived (b.columns.uuid id) (b.sha256_hex text) db r)
  finish-Agrees id text request db (ok (out, db')) h = refl
  finish-Agrees id text request db (err replay_after_conflict) h = inr (refl, text, h, refl)
  finish-Agrees id text request db (err (sentinel e)) h = inl refl
  finish-Agrees id text request db (err violation) h = inl refl
  finish-Agrees id text request db (err no_rows) h = inl refl
  finish-Agrees id text request db (err unmarshalable) h = inl refl
  finish-Agrees id text request db (err undecodable) h = inl refl
  finish-Agrees id text request db (err (injected e)) h = inl refl

  submit-Agrees :
      (id : String) (checked : Check Err) (request : Option String)
      (transaction : String → Tx CommandResult) (db : Tables)
      → Agrees id request db
          (enter checked request transaction db)
          (submit s b env arrived id checked request transaction db)
  submit-Agrees id (err e) request transaction db = inl refl
  submit-Agrees id (ok u) none transaction db = inl refl
  submit-Agrees id (ok u) (some text) transaction db =
      finish-Agrees id text (some text) db (transaction (b.sha256_hex text) db) refl

  -- `ExecuteRunTx` agrees with `ExecuteRun` on every command and every table: where it returns a
  -- result, `ExecuteRun` commits the same tables and returns the same result; where it fails,
  -- `ExecuteRun` leaves the tables as they were and returns the same error, except that a command
  -- with the identifier of one that came first is a conflict for `ExecuteRunTx`, while `ExecuteRun`
  -- answers from the record of that one.
  pub execute_run_tx-Agrees :
      (c : RunCommand) (db : Tables)
      → Agrees
          (envelope c).command_id
          (b.run_request c)
          db
          (execute_run_tx c db)
          (execute_run s b env arrived c db)
  unfolding execute_run_tx execute_run
  execute_run_tx-Agrees c db =
      submit-Agrees (envelope c).command_id (validate_run_command env c) (b.run_request c)
        (execute_run_transaction s b env arrived c) db
