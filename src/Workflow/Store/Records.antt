-- ===== src/Workflow/Store/Records.antt =====
-- The statements on runs, tasks, dependencies and events: `loadRun`, `insertRun`, `updateRun`,
-- `loadTask`, `insertTask`, `updateTask`, `insertEvent` and the insertion of dependencies in
-- go/internal/workflow/store.go. The constraints are the keys of the schema and the foreign keys of
-- the dependencies.
use basic.Base.{
  ℕ, String, Bool, true, false, not, ◌&&◌, ◌||◌, Option, none, some, List, [], ◌∷◌, ◌++◌, ok, err,
  str_eq, ◌==◌, if◌then◌else◌,
}
use basic.Base.Table.{find_row, count_rows, update_rows}
use basic.Workflow.Types.{Env, Event, revision_conflict}
use basic.Workflow.Task.Model.{Task}
use basic.Workflow.Run.Model.{Run}
use basic.Workflow.Plan.Graph.{TaskDependency}
use basic.Workflow.Store.Rows.{
  TaskRow, RunRow, Columns, task_row, updated_task_row, run_row, updated_run_row, lifecycle_column,
  read_task, read_run,
}
use basic.Workflow.Store.Commands.{kept_actor}
use basic.Workflow.Store.Tables.{
  EventRow, DependencyRow, Tables, sentinel, violation, unmarshalable, Tx, ◌>>=◌, ◌>>◌, pure, gets,
  lift, lift_store,
}

abbrev pub exists {ℓ} : {A : Type ℓ} → Option A → Bool
exists none = false
exists (some a) = true

abbrev pub is_run : String → RunRow → Bool
is_run id row = str_eq row.run_id id

abbrev pub has_task_id : String → TaskRow → Bool
has_task_id id row = str_eq row.task_id id

abbrev pub in_run : String → TaskRow → Bool
in_run run_id row = str_eq row.run_id run_id

-- `run_id=$1 AND task_id=$2`, on identifiers as the columns keep them
abbrev pub is_task : String → String → TaskRow → Bool
is_task run_id id row = in_run run_id row && has_task_id id row

module _ (col : Columns) (env : Env) where
  unfoldable pub load_run : String → Tx Run
  load_run id =
      gets (λ db. read_run col env (find_row (is_run (col.uuid id)) db.runs)) >>= lift_store

  unfoldable pub load_task : String → String → Tx Task
  load_task run_id id =
      gets (λ db. read_task env (find_row (is_task (col.uuid run_id) (col.uuid id)) db.tasks))
      >>= lift

-- `WHERE run_id=$1 AND revision=$10`
abbrev pub run_at : Columns → Run → ℕ → RunRow → Bool
run_at col r expected row = is_run (col.uuid r.id) row && row.revision == expected

-- `WHERE run_id=$1 AND task_id=$2 AND revision=$22`
abbrev pub task_at : Columns → Task → ℕ → TaskRow → Bool
task_at col t expected row =
    is_task (col.uuid t.run_id) (col.uuid t.id) row && row.revision == expected

-- `UNIQUE (event_id)` and `UNIQUE (aggregate_type, aggregate_id, revision)`
abbrev pub clashes : Event → EventRow → Bool
clashes e row =
    str_eq row.event.id e.id
    || (str_eq row.event.aggregate_type e.aggregate_type
        && str_eq row.event.aggregate_id e.aggregate_id
        && row.event.revision == e.revision)

module _ (col : Columns) where
  unfoldable pub insert_run : Run → Tx (Unit {0})
  unfolding lifecycle_column
  insert_run r db = elim (lifecycle_column col r) [
    | none ↦ err unmarshalable
    | some lifecycle ↦
        if exists (find_row (is_run (col.uuid r.id)) db.runs)
        then err violation
        else ok (tt, record db { runs = db.runs ++ run_row col r lifecycle ∷ [] })
  ]

  unfoldable pub update_run : Run → ℕ → Tx (Unit {0})
  unfolding lifecycle_column
  update_run r expected db = elim (lifecycle_column col r) [
    | none ↦ err unmarshalable
    | some lifecycle ↦
        if count_rows (run_at col r expected) db.runs == 1
        then ok (
          tt,
          record db {
            runs = update_rows (run_at col r expected) (updated_run_row col r lifecycle) db.runs;
          },
        )
        else err (sentinel revision_conflict)
  ]

  unfoldable pub insert_task : Task → Tx (Unit {0})
  insert_task t db =
      if exists (find_row (has_task_id (col.uuid t.id)) db.tasks)
      then err violation
      else ok (tt, record db { tasks = db.tasks ++ task_row col t ∷ [] })

  unfoldable pub insert_tasks : List Task → Tx (Unit {0})
  insert_tasks [] = pure tt
  insert_tasks (t ∷ ts) = insert_task t >> insert_tasks ts

  unfoldable pub update_task : Task → ℕ → Tx (Unit {0})
  update_task t expected db =
      if count_rows (task_at col t expected) db.tasks == 1
      then ok (
        tt,
        record db {
          tasks = update_rows (task_at col t expected) (updated_task_row col t) db.tasks;
        },
      )
      else err (sentinel revision_conflict)

  -- The row of an event, as its columns keep it.
  unfoldable pub event_row : String → Event → EventRow
  event_row command_id e = record {
    command_id = col.uuid command_id;
    event = record e {
      id = col.uuid e.id;
      aggregate_id = col.uuid e.aggregate_id;
      timestamp = col.time e.timestamp;
      actor = kept_actor col e.actor;
      correlation_id = col.uuid e.correlation_id;
      causation_id = col.uuid e.causation_id;
    };
  }

  unfoldable pub insert_event : String → Event → Tx (Unit {0})
  unfolding event_row
  insert_event command_id e db =
      let row = event_row command_id e in
      if exists (find_row (clashes row.event) db.events)
      then err violation
      else ok (tt, record db { events = db.events ++ row ∷ [] })

  unfoldable pub insert_events : String → List Event → Tx (Unit {0})
  insert_events command_id [] = pure tt
  insert_events command_id (e ∷ es) = insert_event command_id e >> insert_events command_id es

abbrev pub dependency_row : Columns → String → TaskDependency → DependencyRow
dependency_row col run_id d = record {
  run_id = col.uuid run_id;
  task_id = col.uuid d.task_id;
  depends_on_task_id = col.uuid d.depends_on_id;
}

abbrev pub same_dependency : DependencyRow → DependencyRow → Bool
same_dependency d row =
    str_eq row.run_id d.run_id
    && str_eq row.task_id d.task_id
    && str_eq row.depends_on_task_id d.depends_on_task_id

-- The primary key, `CHECK (task_id <> depends_on_task_id)` and the two foreign keys.
unfoldable pub refuses_dependency : Tables → DependencyRow → Bool
refuses_dependency db d =
    exists (find_row (same_dependency d) db.dependencies)
    || str_eq d.task_id d.depends_on_task_id
    || not (exists (find_row (is_task d.run_id d.task_id) db.tasks))
    || not (exists (find_row (is_task d.run_id d.depends_on_task_id) db.tasks))

unfoldable pub insert_dependency : DependencyRow → Tx (Unit {0})
unfolding refuses_dependency
insert_dependency d db =
    if refuses_dependency db d
    then err violation
    else ok (tt, record db { dependencies = db.dependencies ++ d ∷ [] })

unfoldable pub insert_dependencies : Columns → String → List TaskDependency → Tx (Unit {0})
insert_dependencies col run_id [] = pure tt
insert_dependencies col run_id (d ∷ ds) =
    insert_dependency (dependency_row col run_id d) >> insert_dependencies col run_id ds
