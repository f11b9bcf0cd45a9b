-- ===== src/Workflow/Tests/Stores.antt =====
-- Tests of the command store, and its theorems on concrete tables.
use Prim.Native.String.{◌++◌ as concat}
use basic.Base.{
  ◌≡◌, ◌≢◌, refl, ℕ, String, true, false, Option, none, some, List, [], ◌∷◌, Result, ok, err,
}
use basic.Workflow.Types.{
  ActorKind, CommandEnvelope, command_conflict, validate_artifact, validate_actor,
  validate_envelope, validate_id, is_terminal_task,
}
use basic.Workflow.Task.Model.{Task, validate_task, validate_lease_ref}
use basic.Workflow.Task.Command.{TaskCommand, lease_task, validate_task_command}
use basic.Workflow.Task.Apply.{apply, apply_command, lease, validate_command}
use basic.Workflow.Task.Checks.{finish_task_transition, validate_lease}
use basic.Workflow.Plan.Accepted.{RangesOnce}
use basic.Workflow.Run.Model.{validate_run}
use basic.Workflow.Run.Command.{RunCommand, create_run, cancel_run, validate_run_command}
use basic.Workflow.Run.Decide.{decide_run_command}
use basic.Workflow.Run.Intake.{new_run}
use basic.Workflow.Store.Rows.{
  RunLifecycleBindings, Columns, KeepsSpelling, lifecycle_column, encode_run_lifecycle, task_row,
  run_row, scan_task, read_task, apply_lease, optional_artifact,
}
use basic.Workflow.Store.Rows.Codec.{scan_task-task_row, stored_task}
use basic.Workflow.Store.Tables.{
  CommandResult, Tables, Store, Backend, StoreErr, sentinel, empty_tables, fault,
}
use basic.Workflow.Store.Commands.{replayed, load_command_result, reserve, record_result}
use basic.Base.{arith, eq_iff, str_eq, if◌then◌else◌, Bool-cases, inl, inr}
use basic.Base.Table.{find_row, count_rows}
use basic.Workflow.Store.Records.{
  load_task, update_task, insert_run, insert_tasks, insert_dependencies, insert_events,
  insert_event,
}
use basic.Workflow.Store.Gates.{validate_run_task_gate, validate_task_run_gate}
use basic.Workflow.Store.Execute.{
  execute_run, execute_task, execute_run_transaction, fresh_run, load_run_for_command, load_absent,
  cancel_events, persist_run_transition, save_run, execute_task_transaction, fresh_task,
  persist_task_transition, ready_events,
}
use basic.Workflow.Store.Sound.{Sound}
use basic.Workflow.Store.Within.{Agrees, execute_run_tx, execute_run_tx-Agrees}
use basic.Workflow.Store.Sound.Cancel.{ReturnsRows}
use basic.Workflow.Store.Sound.Execution.{
  Submission, run, task, submit_all, submit_all-Sound, execute_run-Sound, execute_task-Sound,
}
use basic.Workflow.Store.Replay.Again.{execute_run_again, execute_task_again}
use basic.Workflow.Store.Replay.Conflict.{execute_run_conflict, execute_task_conflict}
use basic.Workflow.Tests.Samples.{env, meta, ready_task, first_lease, leased_task}
use basic.Workflow.Tests.Life.{started}

abbrev store : Store
store = record { inject = none }

-- The text of a request is one that tells the sample commands apart.
abbrev run_text : RunCommand → Option String
run_text (create_run c) = some (concat "create " c.id)
run_text (cancel_run c) = some (concat "cancel " c.reason)
run_text c = some "run"

abbrev task_text : TaskCommand → Option String
task_text (lease_task c) = some (concat "lease " c.lease.id)
task_text c = some "task"

-- One identifier has two spellings, of which the columns keep the second.
abbrev canonical : String → String
canonical id = if str_eq id "LEASE" then "lease" else id

-- Only the absence of bindings is written.
abbrev no_bindings : RunLifecycleBindings
no_bindings = record {
  execution = none;
  candidate_commit = "";
  verification = none;
  review = none;
  approval = none;
  publication = none;
  merge = none;
}

abbrev columns : Columns
columns = record {
  time = λ t. t;
  uuid = canonical;
  jsonb = some;
  marshal = λ bindings. some "{}";
  unmarshal = λ text. some no_bindings;
}

keeps_spelling : KeepsSpelling columns
keeps_spelling id = elim (Bool-cases (str_eq id "LEASE")) [
  | inl e ↦ rw e refl
  | inr e ↦ rw (e, e) refl
]

abbrev backend : Backend
backend = record {
  columns = columns;
  row_order = λ rows. rows;
  run_request = run_text;
  task_request = task_text;
  sha256_hex = λ text. text;
}

abbrev named : String → ActorKind → ℕ → CommandEnvelope
named id kind revision = record (meta kind revision 1000) { command_id = id }

abbrev creating : String → RunCommand
creating id = create_run (record { meta = named "create" ActorKind.workflow_service 0; id = id })

abbrev cancelling : RunCommand
cancelling =
    cancel_run (record { meta = named "cancel" ActorKind.human 1; id = "run"; reason = "stop" })

abbrev leasing : String → TaskCommand
leasing lease = lease_task (record {
  meta = named "lease" ActorKind.workflow_service 1;
  run = "run";
  id = "task";
  lease = record first_lease { id = lease };
})

-- A run in execution with one task that is ready.
abbrev working : Tables
working = record empty_tables {
  runs = run_row columns started "{}" ∷ [];
  tasks = task_row columns ready_task ∷ [];
}

abbrev answer : Result StoreErr CommandResult × Tables → CommandResult
answer (ok result, db) = result
answer (err e, db) = record {
  aggregate_id = "";
  state = "";
  revision = 0;
  event_ids = [];
  task_ids = [];
  replay = true;
}

each_once : RangesOnce env
each_once names j = refl

keeps_order : ReturnsRows backend
keeps_order rows t = (λ i. i, λ i. i)

abbrev first_run : Result StoreErr CommandResult × Tables
first_run = execute_run store backend env [] (creating "run") empty_tables

abbrev first_task : Result StoreErr CommandResult × Tables
first_task = execute_task store backend env [] (leasing "lease") working

created : first_run ≡ (ok (answer first_run), first_run.1)
unfolding execute_run execute_run_transaction fresh_run load_command_result load_run_for_command
    load_absent validate_run_task_gate decide_run_command cancel_events persist_run_transition
    save_run record_result fault reserve insert_run lifecycle_column encode_run_lifecycle
    insert_tasks insert_dependencies insert_events insert_event new_run validate_run_command
    validate_run validate_actor validate_envelope validate_id find_row
created = refl

leased : first_task ≡ (ok (answer first_task), first_task.1)
unfolding execute_task execute_task_transaction fresh_task load_command_result load_task
    validate_task_run_gate apply apply_command lease persist_task_transition update_task
    ready_events record_result fault reserve insert_events insert_event validate_task_command
    validate_task read_task scan_task task_row apply_lease optional_artifact run_row
    validate_artifact finish_task_transition validate_lease validate_command validate_lease_ref
    find_row count_rows is_terminal_task
leased = refl

execute_run_again_example :
    execute_run store backend env [] (creating "run") first_run.1
    ≡ (ok (replayed (answer first_run)), first_run.1)
execute_run_again_example =
    execute_run_again store backend env (creating "run") empty_tables created

execute_task_again_example :
    execute_task store backend env [] (leasing "lease") first_task.1
    ≡ (ok (replayed (answer first_task)), first_task.1)
execute_task_again_example = execute_task_again store backend env (leasing "lease") working leased

texts_differ : (a b : String) → str_eq a b ≡ false → a ≢ b
texts_differ a b h e = cc (h, (eq_iff a b).1 e)

execute_run_conflict_example :
    execute_run store backend env [] (creating "other") first_run.1
    ≡ (err (sentinel command_conflict), first_run.1)
unfolding validate_run_command
execute_run_conflict_example =
    execute_run_conflict store backend env (creating "run") (creating "other") "create run"
      "create other" empty_tables created refl refl refl refl
      (texts_differ "create run" "create other" refl)

execute_task_conflict_example :
    execute_task store backend env [] (leasing "other") first_task.1
    ≡ (err (sentinel command_conflict), first_task.1)
unfolding validate_task_command
execute_task_conflict_example =
    execute_task_conflict store backend env (leasing "lease") (leasing "other") "lease lease"
      "lease other" working leased refl refl refl refl
      (texts_differ "lease lease" "lease other" refl)

abbrev submissions : List Submission
submissions = run (creating "run") ∷ task (leasing "lease") ∷ run cancelling ∷ []

submit_all_example : Sound (submit_all store backend env submissions empty_tables)
submit_all_example =
    submit_all-Sound store backend env submissions keeps_spelling keeps_order each_once

execute_run_example :
    Sound
      (execute_run store backend env [] cancelling
        (submit_all store backend env submissions empty_tables)).1
execute_run_example =
    execute_run-Sound store backend env [] cancelling
      (submit_all store backend env submissions empty_tables) keeps_spelling keeps_order each_once
      (submit_all-Sound store backend env submissions keeps_spelling keeps_order each_once)

execute_task_example :
    Sound
      (execute_task store backend env []
        (leasing "lease")
        (submit_all store backend env submissions empty_tables)).1
execute_task_example =
    execute_task-Sound store backend env [] (leasing "lease")
      (submit_all store backend env submissions empty_tables) keeps_spelling
      (submit_all-Sound store backend env submissions keeps_spelling keeps_order each_once)

-- A leased task whose lease is not spelled as the column keeps it.
abbrev respelled : Task
respelled = record leased_task { lease = some (record first_lease { id = "LEASE" }) }

read_lease : (stored_task columns respelled).lease ≡ some first_lease
read_lease = refl

scan_task-task_row_example :
    scan_task (task_row columns respelled) ≡ ok (stored_task columns respelled)
scan_task-task_row_example = scan_task-task_row columns respelled (omega arith, omega arith)

entered :
    execute_run_tx store backend env [] (creating "run") empty_tables
    ≡ ok (answer first_run, first_run.1)
unfolding execute_run_tx execute_run execute_run_transaction fresh_run load_command_result
    load_run_for_command load_absent validate_run_task_gate decide_run_command cancel_events
    persist_run_transition save_run record_result fault reserve insert_run lifecycle_column
    encode_run_lifecycle insert_tasks insert_dependencies insert_events insert_event new_run
    validate_run_command validate_run validate_actor validate_envelope validate_id find_row
entered = refl

-- A command that has come first meanwhile is a conflict for one and a replay for the other.
execute_run_tx_example :
    Agrees store backend env first_run.1.commands "create"
      (some "create run")
      empty_tables
      (execute_run_tx store backend env first_run.1.commands (creating "run") empty_tables)
      (execute_run store backend env first_run.1.commands (creating "run") empty_tables)
execute_run_tx_example =
    execute_run_tx-Agrees store backend env first_run.1.commands (creating "run") empty_tables
