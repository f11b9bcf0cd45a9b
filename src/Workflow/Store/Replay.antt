-- ===== src/Workflow/Store/Replay.antt =====
-- A command that has been executed is answered from its record: `Replay` of
-- go/internal/workflow/store.go.
pub mod Answers
pub mod Again
pub mod Conflict
use mathlib.Core.List.{append-nil}
use mathlib.Core.Path.{subst₂}
use basic.Base.{
  ◌≡◌, ◌≢◌, refl, sym, subst, ap, ◌∙◌, ℕ, String, Bool, true, false, not, Option, none, some, List,
  [], ◌∷◌, ◌++◌, Result, Check, ok, err, ok-injective, arith, inl, inr, Bool-cases, Option-cases,
  str_eq, eq_iff, if◌then◌else◌,
}
use basic.Base.Table.{find_row, find_row-append, find_row-last, find_row-update_rows, update_rows}
use basic.Workflow.Types.{Err, Env, Event, command_conflict}
use basic.Workflow.Task.Model.{Task}
use basic.Workflow.Task.Command.{
  TaskCommand, envelope as task_envelope, command_task_id, command_run_id as task_run_id,
  validate_task_command,
}
use basic.Workflow.Task.Apply.{apply}
use basic.Workflow.Run.Command.{RunCommand, envelope, command_run_id, validate_run_command}
use basic.Workflow.Run.Decide.{RunPersistenceDecision, decide_run_command}
use basic.Workflow.Store.Tables.{
  CommandResult, CommandRow, Tables, Store, Backend, StoreErr, sentinel, replay_after_conflict, Tx,
  ◌>>=◌, ◌>>◌, pure, lift, fault, before_events, before_snapshot, before_commit,
}
use basic.Workflow.Store.Commands.{
  has_id, stored_result, found_result, load_command_result, replayed, reserve, reserved_row,
  record_result, complete, as_replay, replay_after,
}
use basic.Workflow.Store.Records.{
  load_task, update_task, insert_events, insert_tasks, insert_dependencies,
}
use basic.Workflow.Store.Gates.{validate_run_task_gate, validate_task_run_gate}
use basic.Workflow.Store.Execute.{
  load_run_for_command, cancel_events, save_run, persist_run_transition, run_result, fresh_run,
  unless_stored, execute_run_transaction, ready_events, persist_task_transition, task_result,
  fresh_task, execute_task_transaction, finish, submit, execute_run, execute_task,
}
use basic.Workflow.Store.Steps.{
  tx->>=-eq-ok, tx->>-eq-ok, reserve-eq-ok, record_result-eq-ok, fault-eq-ok,
  load_command_result-eq-ok,
}
use basic.Workflow.Store.Kept.{
  KeepsCommands, >>=-KeepsCommands, >>-KeepsCommands, pure-KeepsCommands, fault-KeepsCommands,
  insert_events-KeepsCommands, insert_tasks-KeepsCommands, insert_dependencies-KeepsCommands,
  update_task-KeepsCommands, save_run-KeepsCommands, ready_events-KeepsCommands,
}

-- The command is recorded, with the digest of its request and a result.
pub record Recorded (id digest : String) (out : CommandResult) (commands : List CommandRow)
    : Type 0 where
  pub row : CommandRow
  pub found : find_row (has_id id) commands ≡ some row
  pub same_digest : row.request_digest ≡ digest
  pub same_result : row.result ≡ some out

pub stored_result-Recorded :
    (digest : String) (row : CommandRow) (out : CommandResult)
    → row.request_digest ≡ digest
    → row.result ≡ some out
    → stored_result digest row ≡ ok out
unfolding stored_result
stored_result-Recorded digest row out d r = rw (r, (eq_iff row.request_digest digest).1 d) refl

pub load_command_result-Recorded :
    (id digest : String) (out : CommandResult) (db : Tables)
    → Recorded id digest out db.commands
    → load_command_result id digest db ≡ ok (some out, db)
unfolding load_command_result
load_command_result-Recorded id digest out db r =
    rw (r.found, load_command_result)
      (rw (stored_result-Recorded digest r.row out r.same_digest r.same_result) refl)

-- A result that is read is recorded.
pub stored_result-eq-ok :
    (digest : String) (row : CommandRow) {out : CommandResult}
    → stored_result digest row ≡ ok out
    → (row.request_digest ≡ digest) × (row.result ≡ some out)
unfolding stored_result
stored_result-eq-ok digest row h = ground (arith, eq_iff row.request_digest digest)

-- A reservation that is completed is a record.
reserved-Recorded :
    (id digest : String) (out : CommandResult) (commands arrived : List CommandRow)
    (row : CommandRow)
    → row.command_id ≡ id
    → row.request_digest ≡ digest
    → find_row (has_id id) (commands ++ arrived) ≡ none
    → Recorded id digest out (update_rows (has_id id) (complete out) (commands ++ row ∷ []))
reserved-Recorded id digest out commands arrived row i d absent =
    let last =
      find_row-last (has_id id) commands row (find_row-append (has_id id) commands arrived absent)
        ((eq_iff row.command_id id).1 i) in
    record {
      row = complete out row;
      found =
          find_row-update_rows (has_id id) (complete out) (λ x. refl) (commands ++ row ∷ []) last;
      same_digest = d;
      same_result = refl;
    }

found_result-eq-ok :
    (db : Tables) (r : Result StoreErr CommandResult) {out : CommandResult} {db' : Tables}
    → found_result db r ≡ ok (some out, db')
    → (r ≡ ok out) × (db' ≡ db)
found_result-eq-ok db (ok result) h = (cc, cc)
found_result-eq-ok db (err e) h = cc

-- What was found is recorded.
pub load_command_result-found :
    (id digest : String) (db : Tables) {out : CommandResult} {db' : Tables}
    → load_command_result id digest db ≡ ok (some out, db')
    → Recorded id digest out db'.commands
unfolding load_command_result
load_command_result-found id digest db {out} h =
    elim (Option-cases (find_row (has_id id) db.commands)) [
      | inl e ↦ absurd (cc (rw (e, load_command_result) at h))
      | inr (row, e) ↦
          let k = rw (e, load_command_result) at h in
          let (r, same) = found_result-eq-ok db (stored_result digest row) k in
          let (d, result) = stored_result-eq-ok digest row r in
          record {
            row = row;
            found = ap (λ x. find_row (has_id id) x.commands) same ∙ e;
            same_digest = d;
            same_result = result;
          }
    ]

module _ (s : Store) (b : Backend) (env : Env) (arrived : List CommandRow) where
  -- The answer, or the result that it replays, is recorded.
  pub record Answered (id digest : String) (out : CommandResult) (db : Tables) : Type 0 where
    pub result : CommandResult
    pub recorded : Recorded id digest result db.commands
    pub same : replayed out ≡ replayed result

  -- A fresh result that is recorded after a reservation.
  pub fresh_answer :
      (id digest : String) (out : CommandResult) (row : CommandRow) (db reserved last db' : Tables)
      → row.command_id ≡ id
      → row.request_digest ≡ digest
      → reserve arrived row db ≡ ok (tt, reserved)
      → last.commands ≡ reserved.commands
      → db' ≡ record last { commands = update_rows (has_id id) (complete out) last.commands }
      → Answered id digest out db'
  fresh_answer id digest out row db reserved last db' i d r kept e =
      let (absent, added) = reserve-eq-ok arrived row db r in
      let absent' = subst (λ x. find_row (has_id x) (db.commands ++ arrived) ≡ none) i absent in
      let commands = kept ∙ ap (λ x. x.commands) added in
      record {
        result = out;
        recorded =
            subst (Recorded id digest out)
              (ap (update_rows (has_id id) (complete out)) (sym commands)
                ∙ ap (λ x. x.commands) (sym e))
              (reserved-Recorded id digest out db.commands arrived row i d absent');
        same = refl;
      }
