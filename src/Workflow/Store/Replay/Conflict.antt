-- ===== src/Workflow/Store/Replay/Conflict.antt =====
-- Another command under a recorded identifier.
use basic.Base.{
  ◌≡◌, ◌≢◌, refl, sym, subst, ◌∙◌, String, Option, some, [], Check, ok, err, arith, eq_iff,
}
use basic.Workflow.Types.{Err, Env, command_conflict}
use basic.Workflow.Task.Command.{TaskCommand, envelope as task_envelope, validate_task_command}
use basic.Workflow.Run.Command.{RunCommand, envelope, validate_run_command}
use basic.Workflow.Store.Tables.{
  CommandResult, CommandRow, Tables, Store, Backend, sentinel, Tx, ◌>>=◌,
}
use basic.Workflow.Store.Commands.{stored_result, load_command_result}
use basic.Workflow.Store.Execute.{
  fresh_run, fresh_task, unless_stored, submit, execute_run, execute_task, execute_run_transaction,
  execute_task_transaction,
}
use basic.Workflow.Store.Replay.{Recorded, Answered}
use basic.Workflow.Store.Replay.Answers.{fresh_run-Answered, fresh_task-Answered}
use basic.Workflow.Store.Replay.Again.{submit-Answered}

stored_result-conflict :
    (digest : String) (row : CommandRow)
    → row.request_digest ≢ digest
    → stored_result digest row ≡ err (sentinel command_conflict)
unfolding stored_result
stored_result-conflict digest row h = ground (arith, eq_iff row.request_digest digest)

load_command_result-conflict :
    (id digest digest' : String) {out : CommandResult} (db : Tables)
    → Recorded id digest out db.commands
    → digest ≢ digest'
    → load_command_result id digest' db ≡ err (sentinel command_conflict)
unfolding load_command_result
load_command_result-conflict id digest digest' db r other =
    rw (r.found, load_command_result)
      (rw (stored_result-conflict digest' r.row (λ e. other (sym r.same_digest ∙ e))) refl)

module _ (s : Store) (b : Backend) (env : Env) where
  submit_conflict :
      (id digest text : String) (checked : Check Err) (request : Option String)
      (fresh : String → Tx CommandResult) (db : Tables) {out : CommandResult}
      → Answered s b env [] (b.columns.uuid id) digest out db
      → checked ≡ ok tt
      → request ≡ some text
      → digest ≢ b.sha256_hex text
      → submit s b env [] id checked request
          (λ digest.
            load_command_result (b.columns.uuid id) digest
            >>= unless_stored s b env [] (fresh digest))
          db
        ≡ (err (sentinel command_conflict), db)
  submit_conflict id digest text checked request fresh db a valid same other =
      rw (valid, same)
        (rw
          (load_command_result-conflict (b.columns.uuid id) digest (b.sha256_hex text) db a.recorded
            other)
          refl)

  -- After a run command has returned a result, with no commits of other transactions during the
  -- executions, a valid run command that can be encoded, with the same identifier and a
  -- request of another digest fails with `ErrCommandConflict` and changes nothing.
  pub execute_run_conflict :
      (c other : RunCommand) (text other_text : String) (db : Tables) {out : CommandResult}
      {db' : Tables}
      → execute_run s b env [] c db ≡ (ok out, db')
      → b.run_request c ≡ some text
      → (envelope other).command_id ≡ (envelope c).command_id
      → validate_run_command env other ≡ ok tt
      → b.run_request other ≡ some other_text
      → b.sha256_hex text ≢ b.sha256_hex other_text
      → execute_run s b env [] other db' ≡ (err (sentinel command_conflict), db')
  unfolding execute_run execute_run_transaction
  execute_run_conflict c other text other_text db {out} {db'} h request id valid request' differ =
      let a =
        submit-Answered s b env (envelope c).command_id (validate_run_command env c)
          (b.run_request c) text (fresh_run s b env [] c) db (fresh_run-Answered s b env [] c)
          request h in
      (submit_conflict (envelope other).command_id (b.sha256_hex text) other_text
        (validate_run_command env other) (b.run_request other) (fresh_run s b env [] other) db'
        (subst (λ x. Answered s b env [] (b.columns.uuid x) (b.sha256_hex text) out db') (sym id)
          a.1)
        valid request' differ)

  -- After a task command has returned a result, with no commits of other transactions during the
  -- executions, a valid task command that can be encoded, with the same identifier and a
  -- request of another digest fails with `ErrCommandConflict` and changes nothing.
  pub execute_task_conflict :
      (c other : TaskCommand) (text other_text : String) (db : Tables) {out : CommandResult}
      {db' : Tables}
      → execute_task s b env [] c db ≡ (ok out, db')
      → b.task_request c ≡ some text
      → (task_envelope other).command_id ≡ (task_envelope c).command_id
      → validate_task_command env other ≡ ok tt
      → b.task_request other ≡ some other_text
      → b.sha256_hex text ≢ b.sha256_hex other_text
      → execute_task s b env [] other db' ≡ (err (sentinel command_conflict), db')
  unfolding execute_task execute_task_transaction
  execute_task_conflict c other text other_text db {out} {db'} h request id valid request' differ =
      let a =
        submit-Answered s b env (task_envelope c).command_id (validate_task_command env c)
          (b.task_request c) text (fresh_task s b env [] c) db (fresh_task-Answered s b env [] c)
          request h in
      (submit_conflict (task_envelope other).command_id (b.sha256_hex text) other_text
        (validate_task_command env other) (b.task_request other) (fresh_task s b env [] other) db'
        (subst (λ x. Answered s b env [] (b.columns.uuid x) (b.sha256_hex text) out db') (sym id)
          a.1)
        valid request' differ)
