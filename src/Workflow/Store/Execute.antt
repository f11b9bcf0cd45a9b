-- ===== src/Workflow/Store/Execute.antt =====
-- The execution of a command in one transaction: `ExecuteRun`, `ExecuteTask` and what they call in
-- go/internal/workflow/store.go, for one attempt of `RetryTransaction`. `arrived` are the commands
-- that other transactions have committed since this one began.
use basic.Base.{
  ℕ, String, false, Option, none, some, List, [], ◌++◌, Result, Check, ok, err, if◌then◌else◌,
}
use basic.Base.Table.{find_row}
use basic.Workflow.Types.{
  Err, Env, RunState, Event, invalid_transition, run_state_text, task_state_text,
}
use basic.Workflow.Task.Model.{Task}
use basic.Workflow.Task.States.{is_accepted}
use basic.Workflow.Task.Command.{
  TaskCommand, envelope as task_envelope, command_task_id, command_run_id as task_run_id,
  validate_task_command,
}
use basic.Workflow.Task.Apply.{apply}
use basic.Workflow.Run.Model.{Run}
use basic.Workflow.Run.Command.{
  RunCommand, create_run, cancel_run, envelope, command_run_id, validate_run_command,
}
use basic.Workflow.Run.Decide.{RunPersistenceDecision, decide_run_command}
use basic.Workflow.Store.Rows.{Columns, read_run}
use basic.Workflow.Store.Tables.{
  CommandResult, CommandRow, Tables, Store, Backend, StoreErr, before_events, before_snapshot,
  before_commit, sentinel, replay_after_conflict, unmarshalable, Tx, ◌>>=◌, ◌>>◌, pure, lift, fault,
}
use basic.Workflow.Store.Commands.{
  load_command_result, reserved_row, reserve, record_result, replay_after, replayed, event_ids,
  task_ids,
}
use basic.Workflow.Store.Records.{
  is_run, load_run, insert_run, update_run, load_task, insert_tasks, update_task, insert_events,
  insert_dependencies,
}
use basic.Workflow.Store.Dependents.{make_dependents_ready, cancel_run_tasks}
use basic.Workflow.Store.Gates.{validate_run_task_gate, validate_task_run_gate}

-- `Run{}`, the zero value.
abbrev pub zero_run : Run
zero_run = record {
  id = "";
  state = RunState.unlisted "";
  revision = 0;
  specification = none;
  task_graph = none;
  execution = none;
  candidate_commit = "";
  verification = none;
  review = none;
  approval = none;
  publication = none;
  merge = none;
  created_at = 0;
  updated_at = 0;
}

-- A run to create must not be there: the run that was loaded, or the error, refuses it.
abbrev pub refuse_existing : Result StoreErr Run → Result StoreErr (Run × Tables)
refuse_existing (ok run) = err (sentinel invalid_transition)
refuse_existing (err e) = err e

-- `loadRun` fails with `ErrNotFound` exactly where no row is.
unfoldable pub load_absent : Columns → Env → String → Tx Run
load_absent col env id db = elim (find_row (is_run (col.uuid id)) db.runs) [
  | none ↦ ok (zero_run, db)
  | some row ↦ refuse_existing (read_run col env (some row))
]

unfoldable pub load_run_for_command : Columns → Env → RunCommand → Tx Run
unfolding load_absent
load_run_for_command col env (create_run c) = load_absent col env c.id
load_run_for_command col env c = load_run col env (command_run_id c)

module _ (s : Store) (b : Backend) (env : Env) (arrived : List CommandRow) where
  -- The events of the tasks that the cancellation of a run cancels; none for other commands.
  unfoldable pub cancel_events : RunCommand → String → Tx (List Event)
  cancel_events (cancel_run c) run_id = cancel_run_tasks env b c.meta run_id c.reason
  cancel_events c run_id = pure []

  -- The snapshot of a created run is inserted, any other is updated.
  unfoldable pub save_run : RunCommand → Run → ℕ → Tx (Unit {0})
  save_run (create_run c) next expected = insert_run b.columns next
  save_run c next expected = update_run b.columns next expected

  unfoldable pub persist_run_transition :
      RunCommand → String → RunPersistenceDecision → Tx (Unit {0})
  unfolding save_run
  persist_run_transition c digest d = do
    reserve arrived (reserved_row b.columns "RUN" (command_run_id c) digest (envelope c))
    fault s before_events
    insert_events b.columns (envelope c).command_id d.events
    insert_tasks b.columns d.tasks
    insert_dependencies b.columns d.next.id d.dependencies
    fault s before_snapshot
    save_run c d.next d.current.revision

  abbrev pub run_result : RunPersistenceDecision → CommandResult
  run_result d = record {
    aggregate_id = d.next.id;
    state = run_state_text d.next.state;
    revision = d.next.revision;
    event_ids = event_ids d.events;
    task_ids = task_ids d.tasks;
    replay = false;
  }

  -- The transaction of a command that is not yet stored.
  unfoldable pub fresh_run : RunCommand → String → Tx CommandResult
  unfolding cancel_events persist_run_transition
  fresh_run c digest = do
    current ← load_run_for_command b.columns env c
    validate_run_task_gate b.columns c
    decided ← lift (decide_run_command env current c)
    cancelled ← cancel_events c decided.next.id
    let decision = record decided { events = decided.events ++ cancelled }
    persist_run_transition c digest decision
    result ← record_result (b.columns.uuid (envelope c).command_id) (run_result decision)
    fault s before_commit
    pure result

  -- A stored result is returned as a replay; otherwise `fresh` runs.
  abbrev pub unless_stored : Tx CommandResult → Option CommandResult → Tx CommandResult
  unless_stored fresh (some result) = pure (replayed result)
  unless_stored fresh none = fresh

  unfoldable pub execute_run_transaction : RunCommand → String → Tx CommandResult
  unfolding fresh_run
  execute_run_transaction c digest = do
    found ← load_command_result (b.columns.uuid (envelope c).command_id) digest
    unless_stored (fresh_run c digest) found

  -- The tasks that wait for an accepted one become ready, with their events.
  unfoldable pub ready_events : TaskCommand → Task → Tx (List Event)
  ready_events c next =
      if is_accepted next.state
      then (do
        events ← make_dependents_ready env b (task_envelope c) next
        insert_events b.columns (task_envelope c).command_id events
        pure events)
      else pure []

  unfoldable pub persist_task_transition :
      TaskCommand → String → Task → Task → List Event → Tx (List Event)
  unfolding ready_events
  persist_task_transition c digest current next events = do
    reserve arrived (reserved_row b.columns "TASK" (command_task_id c) digest (task_envelope c))
    fault s before_events
    insert_events b.columns (task_envelope c).command_id events
    fault s before_snapshot
    update_task b.columns next current.revision
    readied ← ready_events c next
    pure (events ++ readied)

  abbrev pub task_result : Task → List Event → CommandResult
  task_result next events = record {
    aggregate_id = next.id;
    state = task_state_text next.state;
    revision = next.revision;
    event_ids = event_ids events;
    task_ids = [];
    replay = false;
  }

  unfoldable pub fresh_task : TaskCommand → String → Tx CommandResult
  unfolding persist_task_transition
  fresh_task c digest = do
    validate_task_run_gate b.columns c
    current ← load_task b.columns env (task_run_id c) (command_task_id c)
    applied ← lift (apply env current c)
    events ← persist_task_transition c digest current applied.0 applied.1
    result ←
        record_result (b.columns.uuid (task_envelope c).command_id) (task_result applied.0 events)
    fault s before_commit
    pure result

  unfoldable pub execute_task_transaction : TaskCommand → String → Tx CommandResult
  unfolding fresh_task
  execute_task_transaction c digest = do
    found ← load_command_result (b.columns.uuid (task_envelope c).command_id) digest
    unless_stored (fresh_task c digest) found

  -- Commit, roll back, or answer from the command that came first.
  abbrev pub finish :
      String
      → String
      → Tables
      → Result StoreErr (CommandResult × Tables)
      → Result StoreErr CommandResult × Tables
  finish id digest db (ok (result, db')) = (ok result, db')
  finish id digest db (err replay_after_conflict) =
      (replay_after id digest (db.commands ++ arrived), db)
  finish id digest db (err e) = (err e, db)

  -- The checks, the digest and the transaction of a command.
  abbrev pub submit :
      String
      → Check Err
      → Option String
      → (String → Tx CommandResult)
      → Tables
      → Result StoreErr CommandResult × Tables
  submit id (err e) request transaction db = (err (sentinel e), db)
  submit id (ok _) none transaction db = (err unmarshalable, db)
  submit id (ok _) (some request) transaction db =
      let digest = b.sha256_hex request in
      finish (b.columns.uuid id) digest db (transaction digest db)

  unfoldable pub execute_run : RunCommand → Tables → Result StoreErr CommandResult × Tables
  unfolding execute_run_transaction
  execute_run c =
      submit (envelope c).command_id (validate_run_command env c) (b.run_request c)
        (execute_run_transaction c)

  unfoldable pub execute_task : TaskCommand → Tables → Result StoreErr CommandResult × Tables
  unfolding execute_task_transaction
  execute_task c =
      submit (task_envelope c).command_id (validate_task_command env c) (b.task_request c)
        (execute_task_transaction c)
