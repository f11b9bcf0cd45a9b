-- ===== src/Workflow/Store/Sound/Execution.antt =====
-- Every execution of a command keeps the invariant of the tables.
use basic.Base.{◌≡◌, refl, sym, subst, String, Option, none, some, List, [], ◌∷◌, ok, err}
use basic.Workflow.Types.{Env}
use basic.Workflow.Plan.Accepted.{RangesOnce}
use basic.Workflow.Run.Command.{RunCommand, envelope}
use basic.Workflow.Store.Rows.{KeepsSpelling}
use basic.Workflow.Store.Tables.{CommandRow, CommandResult, Tables, Store, Backend, Tx}
use basic.Workflow.Store.Execute.{execute_run_transaction}
use basic.Workflow.Store.Sound.{Sound}
use basic.Workflow.Store.Sound.Cancel.{ReturnsRows}
use basic.Workflow.Types.{Err}
use basic.Base.{Result, Check}
use basic.Workflow.Store.Sound.Tasks.{execute_task_transaction-Sound}
use basic.Workflow.Task.Command.{TaskCommand, envelope as task_envelope, validate_task_command}
use basic.Workflow.Run.Command.{validate_run_command}
use basic.Workflow.Store.Tables.{StoreErr, replay_after_conflict, empty_tables}
use basic.Workflow.Store.Execute.{
  finish, execute_run, execute_task, execute_task_transaction, submit,
}
use basic.Workflow.Store.Sound.Fresh.{execute_run_transaction-Sound}

module _ (s : Store) (b : Backend) (env : Env) (arrived : List CommandRow) where
  -- A transaction that fails leaves the tables as they were.
  finish_err :
      (id digest : String) (db : Tables) (e : StoreErr)
      → (finish s b env arrived id digest db (err e)).1 ≡ db
  finish_err id digest db replay_after_conflict = refl
  finish_err id digest db e = refl

  finish-Sound :
      (id digest : String) (db : Tables) (r : Result StoreErr (CommandResult × Tables))
      → ((out : CommandResult) (db' : Tables) → r ≡ ok (out, db') → Sound db')
      → Sound db
      → Sound (finish s b env arrived id digest db r).1
  finish-Sound id digest db (ok (out, db')) k v = k out db' refl
  finish-Sound id digest db (err e) k v = subst Sound (sym (finish_err id digest db e)) v

  submit-Sound :
      (id : String) (checked : Check Err) (request : Option String)
      (transaction : String → Tx CommandResult) (db : Tables)
      → ((digest : String) (out : CommandResult) (db' : Tables)
          → transaction digest db ≡ ok (out, db')
          → Sound db')
      → Sound db
      → Sound (submit s b env arrived id checked request transaction db).1
  submit-Sound id (err e) request transaction db k v = v
  submit-Sound id (ok _) none transaction db k v = v
  submit-Sound id (ok _) (some request) transaction db k v =
      let digest = b.sha256_hex request in
      finish-Sound (b.columns.uuid id) digest db (transaction digest db) (k digest) v

  -- Every execution of a task's command, accepted, replayed or refused, keeps the invariant.
  pub execute_task-Sound :
      (c : TaskCommand) (db : Tables)
      → KeepsSpelling b.columns
      → Sound db
      → Sound (execute_task s b env arrived c db).1
  unfolding execute_task
  execute_task-Sound c db keeps v =
      submit-Sound (task_envelope c).command_id (validate_task_command env c) (b.task_request c)
        (execute_task_transaction s b env arrived c) db
        (λ digest out db' h. execute_task_transaction-Sound s b env arrived c digest db keeps h v) v

  -- Every execution of a run's command, accepted, replayed or refused, keeps the invariant.
  pub execute_run-Sound :
      (c : RunCommand) (db : Tables)
      → KeepsSpelling b.columns
      → ReturnsRows b
      → RangesOnce env
      → Sound db
      → Sound (execute_run s b env arrived c db).1
  unfolding execute_run
  execute_run-Sound c db keeps returns once v =
      submit-Sound (envelope c).command_id (validate_run_command env c) (b.run_request c)
        (execute_run_transaction s b env arrived c) db
        (λ digest out db' h.
          execute_run_transaction-Sound s b env arrived c digest db keeps returns once h v)
        v

-- What is submitted to the store.
pub data Submission : Type 0 where
  run : RunCommand → Submission
  task : TaskCommand → Submission

abbrev pub submitted : Store → Backend → Env → Submission → Tables → Tables
submitted s b env (run c) db = (execute_run s b env [] c db).1
submitted s b env (task c) db = (execute_task s b env [] c db).1

-- The tables after a sequence of submissions.
unfoldable pub submit_all : Store → Backend → Env → List Submission → Tables → Tables
submit_all s b env [] db = db
submit_all s b env (c ∷ cs) db = submit_all s b env cs (submitted s b env c db)

empty-Sound : Sound empty_tables
empty-Sound = record {
  unique_runs = λ r q i. absurd i;
  unique_tasks = λ t u i. absurd i;
  linked = λ d i. absurd i;
  ordered = λ t i. absurd i;
  done = λ r i. absurd i;
  over = λ r i. absurd i;
}

submit_all-kept :
    (s : Store) (b : Backend) (env : Env) (cs : List Submission) (db : Tables)
    → KeepsSpelling b.columns
    → ReturnsRows b
    → RangesOnce env
    → Sound db
    → Sound (submit_all s b env cs db)
unfolding submit_all
submit_all-kept s b env [] db keeps returns once v = v
submit_all-kept s b env (run c ∷ cs) db keeps returns once v =
    submit_all-kept s b env cs (submitted s b env (run c) db) keeps returns once
      (execute_run-Sound s b env [] c db keeps returns once v)
submit_all-kept s b env (task c ∷ cs) db keeps returns once v =
    submit_all-kept s b env cs (submitted s b env (task c) db) keeps returns once
      (execute_task-Sound s b env [] c db keeps v)

-- Whatever commands are executed on an empty database, accepted or refused, the invariant of the
-- tables holds: identifiers of runs and of tasks are unique; every dependency joins two tasks of its
-- run; a task that is started, so neither `PENDING` nor `FAILED` nor `CANCELLED`, has all its
-- prerequisites accepted; a run with a candidate, up to a merged one, has tasks and all of them are
-- accepted; and all tasks of a cancelled run are over. The conditions are that a `uuid` column keeps
-- a spelling that it has given back, that a query returns its rows in some order and that Go's
-- `range` visits every key of a map once.
pub submit_all-Sound :
    (s : Store) (b : Backend) (env : Env) (cs : List Submission)
    → KeepsSpelling b.columns
    → ReturnsRows b
    → RangesOnce env
    → Sound (submit_all s b env cs empty_tables)
submit_all-Sound s b env cs keeps returns once =
    submit_all-kept s b env cs empty_tables keeps returns once empty-Sound
