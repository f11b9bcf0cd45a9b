-- ===== src/Workflow/Store/Replay/Answers.antt =====
-- A fresh execution records its result.
use mathlib.Core.Path.{subst₂}
use basic.Base.{◌≡◌, refl, sym, ap, ◌∙◌, String, List, ◌++◌, ok, ok-injective}
use basic.Workflow.Types.{Env, Event}
use basic.Workflow.Task.Model.{Task}
use basic.Workflow.Task.Command.{
  TaskCommand, envelope as task_envelope, command_task_id, command_run_id as task_run_id,
}
use basic.Workflow.Task.Apply.{apply}
use basic.Workflow.Run.Command.{RunCommand, envelope, command_run_id}
use basic.Workflow.Run.Decide.{RunPersistenceDecision, decide_run_command}
use basic.Workflow.Store.Tables.{
  CommandResult, CommandRow, Tables, Store, Backend, ◌>>=◌, ◌>>◌, pure, lift, fault, before_events,
  before_snapshot, before_commit,
}
use basic.Workflow.Store.Commands.{reserve, reserved_row, record_result}
use basic.Workflow.Store.Records.{
  load_task, update_task, insert_events, insert_tasks, insert_dependencies,
}
use basic.Workflow.Store.Gates.{validate_run_task_gate, validate_task_run_gate}
use basic.Workflow.Store.Execute.{
  load_run_for_command, cancel_events, save_run, persist_run_transition, run_result, fresh_run,
  ready_events, persist_task_transition, task_result, fresh_task,
}
use basic.Workflow.Store.Steps.{tx->>=-eq-ok, tx->>-eq-ok, record_result-eq-ok, fault-eq-ok}
use basic.Workflow.Store.Kept.{
  KeepsCommands, >>=-KeepsCommands, >>-KeepsCommands, pure-KeepsCommands, fault-KeepsCommands,
  insert_events-KeepsCommands, insert_tasks-KeepsCommands, insert_dependencies-KeepsCommands,
  update_task-KeepsCommands, save_run-KeepsCommands, ready_events-KeepsCommands,
}
use basic.Workflow.Store.Replay.{Answered, fresh_answer}

module _ (s : Store) (b : Backend) (env : Env) (arrived : List CommandRow) where
  pub fresh_run-Answered :
      (c : RunCommand) (digest : String) (db : Tables) {out : CommandResult} {db' : Tables}
      → fresh_run s b env arrived c digest db ≡ ok (out, db')
      → Answered s b env arrived (b.columns.uuid (envelope c).command_id) digest out db'
  unfolding fresh_run persist_run_transition
  fresh_run-Answered c digest db h =
      let id = b.columns.uuid (envelope c).command_id in
      let (current, db1, h1, k1) = tx->>=-eq-ok (load_run_for_command b.columns env c) _ h in
      let (db2, h2, k2) = tx->>-eq-ok (validate_run_task_gate b.columns c) _ k1 in
      let (decided, db3, h3, k3) = tx->>=-eq-ok (lift (decide_run_command env current c)) _ k2 in
      let (cancelled, db4, h4, k4) =
        tx->>=-eq-ok (cancel_events s b env arrived c decided.next.id) _ k3 in
      let d : RunPersistenceDecision = record decided { events = decided.events ++ cancelled } in
      let (db5, h5, k5) = tx->>-eq-ok (persist_run_transition s b env arrived c digest d) _ k4 in
      let reserved = reserved_row b.columns "RUN" (command_run_id c) digest (envelope c) in
      let (r1, r, rest) = tx->>-eq-ok (reserve arrived reserved) _ h5 in
      let (out, db6, h6, k6) =
        tx->>=-eq-ok (record_result id (run_result s b env arrived d)) _ k5 in
      let (db7, h7, k7) = tx->>-eq-ok (fault s before_commit) _ k6 in
      let (e, f) = record_result-eq-ok id (run_result s b env arrived d) db5 h6 in
      let answer =
        fresh_answer s b env arrived id digest (run_result s b env arrived d) reserved db4 r1 db5
          db6 refl refl r (rest_kept c d r1 tt db5 rest) f in
      let same = fault-eq-ok s before_commit h7 ∙ refl in
      subst₂ (Answered s b env arrived id digest) (sym e ∙ ap (λ p. p.0) (ok-injective k7))
        (sym same ∙ ap (λ p. p.1) (ok-injective k7)) answer
    where
      rest_kept :
          (c : RunCommand) (d : RunPersistenceDecision)
          → KeepsCommands (
              fault s before_events
              >> (insert_events b.columns (envelope c).command_id d.events
                  >> (insert_tasks b.columns d.tasks
                      >> (insert_dependencies b.columns d.next.id d.dependencies
                          >> (fault s before_snapshot
                              >> save_run s b env arrived c d.next d.current.revision)))))
      rest_kept c d =
          >>-KeepsCommands (fault s before_events) _ (fault-KeepsCommands s before_events) (
            >>-KeepsCommands (insert_events b.columns (envelope c).command_id d.events) _
              (insert_events-KeepsCommands b.columns (envelope c).command_id d.events)
              (>>-KeepsCommands (insert_tasks b.columns d.tasks) _
                (insert_tasks-KeepsCommands b.columns d.tasks)
                (>>-KeepsCommands (insert_dependencies b.columns d.next.id d.dependencies) _
                  (insert_dependencies-KeepsCommands b.columns d.next.id d.dependencies)
                  (>>-KeepsCommands (fault s before_snapshot)
                    (save_run s b env arrived c d.next d.current.revision)
                    (fault-KeepsCommands s before_snapshot)
                    (save_run-KeepsCommands s b env arrived c d.next d.current.revision)))))

  pub fresh_task-Answered :
      (c : TaskCommand) (digest : String) (db : Tables) {out : CommandResult} {db' : Tables}
      → fresh_task s b env arrived c digest db ≡ ok (out, db')
      → Answered s b env arrived (b.columns.uuid (task_envelope c).command_id) digest out db'
  unfolding fresh_task persist_task_transition
  fresh_task-Answered c digest db h =
      let id = b.columns.uuid (task_envelope c).command_id in
      let (db1, h1, k1) = tx->>-eq-ok (validate_task_run_gate b.columns c) _ h in
      let (current, db2, h2, k2) =
        tx->>=-eq-ok (load_task b.columns env (task_run_id c) (command_task_id c)) _ k1 in
      let (next, db3, h3, k3) = tx->>=-eq-ok (lift (apply env current c)) _ k2 in
      let (events, db4, h4, k4) =
        tx->>=-eq-ok (persist_task_transition s b env arrived c digest current next.0 next.1) _
          k3 in
      let reserved = reserved_row b.columns "TASK" (command_task_id c) digest (task_envelope c) in
      let (r1, r, rest) = tx->>-eq-ok (reserve arrived reserved) _ h4 in
      let (out, db5, h5, k5) =
        tx->>=-eq-ok (record_result id (task_result s b env arrived next.0 events)) _ k4 in
      let (db6, h6, k6) = tx->>-eq-ok (fault s before_commit) _ k5 in
      let (e, f) = record_result-eq-ok id (task_result s b env arrived next.0 events) db4 h5 in
      let answer =
        fresh_answer s b env arrived id digest (task_result s b env arrived next.0 events) reserved
          db3 r1 db4 db5 refl refl r (rest_kept c current next.0 next.1 r1 events db4 rest) f in
      subst₂ (Answered s b env arrived id digest) (sym e ∙ ap (λ p. p.0) (ok-injective k6))
        (sym (fault-eq-ok s before_commit h6) ∙ ap (λ p. p.1) (ok-injective k6)) answer
    where
      rest_kept :
          (c : TaskCommand) (current next : Task) (events : List Event)
          → KeepsCommands (
              fault s before_events
              >> (insert_events b.columns (task_envelope c).command_id events
                  >> (fault s before_snapshot
                      >> (update_task b.columns next current.revision
                          >> (ready_events s b env arrived c next >>= λ readied.
                              pure (events ++ readied))))))
      rest_kept c current next events =
          >>-KeepsCommands (fault s before_events) _ (fault-KeepsCommands s before_events) (
            >>-KeepsCommands (insert_events b.columns (task_envelope c).command_id events) _
              (insert_events-KeepsCommands b.columns (task_envelope c).command_id events)
              (>>-KeepsCommands (fault s before_snapshot) _ (fault-KeepsCommands s before_snapshot)
                (>>-KeepsCommands (update_task b.columns next current.revision) _
                  (update_task-KeepsCommands b.columns next current.revision)
                  (>>=-KeepsCommands (ready_events s b env arrived c next) _
                    (ready_events-KeepsCommands s b env arrived c next)
                    (λ readied. pure-KeepsCommands (events ++ readied))))))
