-- ===== src/Workflow/Store/Dependents.antt =====
-- `makeDependentsReady` and `cancelRunTasks` of go/internal/workflow/store.go: the changes of other
-- tasks that an accepted task and a cancelled run bring about.
use Prim.Native.String.{◌++◌ as concat}
use basic.Base.{
  ℕ, ◌+◌, String, Bool, not, ◌&&◌, List, [], ◌∷◌, ◌++◌, map, ok, err, str_eq, ◌==◌, if◌then◌else◌,
}
use basic.Base.Table.{count_rows, select_rows, update_rows}
use basic.Workflow.Types.{
  Env, CommandEnvelope, Event, TaskState, Value, text, revision_conflict, is_terminal_task,
}
use basic.Workflow.Task.Model.{Task}
use basic.Workflow.Task.States.{is_pending, is_accepted}
use basic.Workflow.Store.Rows.{TaskRow}
use basic.Workflow.Store.Tables.{
  DependencyRow, LockedTask, Backend, sentinel, Tx, ◌>>=◌, ◌>>◌, pure, modify,
}
use basic.Workflow.Store.Records.{in_run, is_task}

abbrev pub locked : TaskRow → LockedTask
locked row = record { id = row.task_id; revision = row.revision }

-- The join's condition, for a task and a dependency on the task `id` of the run.
abbrev pub depends_on : String → String → TaskRow → DependencyRow → Bool
depends_on run_id id t d =
    str_eq d.run_id t.run_id
    && str_eq d.task_id t.task_id
    && str_eq d.run_id run_id
    && str_eq d.depends_on_task_id id

-- The tasks of the join, each as often as a dependency joins it.
unfoldable pub join_dependents :
    String → String → List DependencyRow → List TaskRow → List LockedTask
join_dependents run_id id deps [] = []
join_dependents run_id id deps (t ∷ ts) =
    let rest = join_dependents run_id id deps ts in
    if is_pending t.state
    then map (λ d. locked t) (select_rows (depends_on run_id id t) deps) ++ rest
    else rest

-- The prerequisites of a task in the join, by the dependency that names them.
abbrev pub unmet_of : DependencyRow → TaskRow → Bool
unmet_of d p =
    str_eq p.run_id d.run_id && str_eq p.task_id d.depends_on_task_id && not (is_accepted p.state)

-- `count(*)` of the prerequisites that are not accepted.
unfoldable pub count_unmet : String → String → List DependencyRow → List TaskRow → ℕ
count_unmet run_id id [] tasks = 0
count_unmet run_id id (d ∷ ds) tasks =
    (if str_eq d.run_id run_id && str_eq d.task_id id then count_rows (unmet_of d) tasks else 0)
    + count_unmet run_id id ds tasks

-- The event of a task that another command has changed.
abbrev pub derived_event :
    Env → CommandEnvelope → LockedTask → String → String → List (String × Value) → Event
derived_event env meta t suffix type payload = record {
  id = env.sha1_uuid meta.command_id (concat t.id suffix);
  aggregate_type = "TASK";
  aggregate_id = t.id;
  revision = t.revision + 1;
  type = type;
  timestamp = meta.timestamp;
  actor = meta.actor;
  correlation_id = meta.correlation_id;
  causation_id = meta.causation_id;
  payload = payload;
}

module _ (env : Env) (b : Backend) (meta : CommandEnvelope) where
  abbrev pub pending_at : String → LockedTask → TaskRow → Bool
  pending_at run_id c row =
      is_task run_id c.id row && is_pending row.state && row.revision == c.revision

  abbrev pub readied : TaskRow → TaskRow
  readied row = record row {
    state = TaskState.ready;
    revision = row.revision + 1;
    updated_at = b.columns.time meta.timestamp;
  }

  unfoldable pub ready_dependent : String → LockedTask → Tx (Unit {0})
  ready_dependent run_id c db =
      if count_rows (pending_at run_id c) db.tasks == 1
      then ok (tt, record db { tasks = update_rows (pending_at run_id c) readied db.tasks })
      else err (sentinel revision_conflict)

  abbrev ready_event : Task → LockedTask → Event
  ready_event accepted c =
      derived_event env meta c ":ready" "TASK_READY" (("dependency_task_id", text accepted.id) ∷ [])

  -- One round of the loop, with the event that it appends.
  unfoldable pub ready_candidate : Task → LockedTask → Tx (List Event)
  unfolding ready_dependent count_unmet
  ready_candidate accepted c db =
      if count_unmet (b.columns.uuid accepted.run_id) c.id db.dependencies db.tasks == 0
      then (ready_dependent (b.columns.uuid accepted.run_id) c
            >> pure (ready_event accepted c ∷ []))
          db
      else ok ([], db)

  unfoldable pub ready_candidates : Task → List LockedTask → Tx (List Event)
  unfolding ready_candidate
  ready_candidates accepted [] = pure []
  ready_candidates accepted (c ∷ cs) = do
    event ← ready_candidate accepted c
    events ← ready_candidates accepted cs
    pure (event ++ events)

  unfoldable pub make_dependents_ready : Task → Tx (List Event)
  unfolding ready_candidates
  make_dependents_ready accepted db =
      ready_candidates accepted
        (b.row_order (
          join_dependents (b.columns.uuid accepted.run_id) (b.columns.uuid accepted.id)
            db.dependencies db.tasks))
        db

  abbrev pub cancelled_row : TaskRow → TaskRow
  cancelled_row row = record row {
    state = TaskState.cancelled;
    revision = row.revision + 1;
    updated_at = b.columns.time meta.timestamp;
  }

  abbrev cancel_event : String → String → LockedTask → Event
  cancel_event run_id reason t =
      derived_event env meta t ":cancel" "TASK_CANCELLED"
        (("run_id", text run_id) ∷ ("reason", text reason) ∷ [])

  unfoldable pub cancel_locked : String → String → List LockedTask → Tx (List Event)
  cancel_locked run_id reason [] = pure []
  cancel_locked run_id reason (t ∷ ts) = do
    modify (λ db. record db {
      tasks = update_rows (is_task (b.columns.uuid run_id) t.id) cancelled_row db.tasks;
    })
    events ← cancel_locked run_id reason ts
    pure (cancel_event run_id reason t ∷ events)

  -- `run_id=$1 AND state NOT IN ('ACCEPTED','FAILED','CANCELLED')`
  abbrev pub is_live_in : String → TaskRow → Bool
  is_live_in run_id row = in_run run_id row && not (is_terminal_task row.state)

  unfoldable pub cancel_run_tasks : String → String → Tx (List Event)
  unfolding cancel_locked
  cancel_run_tasks run_id reason db =
      cancel_locked run_id reason
        (b.row_order (map locked (select_rows (is_live_in (b.columns.uuid run_id)) db.tasks))) db
