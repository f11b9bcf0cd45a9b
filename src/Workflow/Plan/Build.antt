-- ===== src/Workflow/Plan/Build.antt =====
-- The tasks and events of an accepted plan: `NewPlannedTasks` and `buildPlannedTasks` of
-- go/internal/workflow/task.go.
use Prim.Native.String.{◌++◌ as concat}
use basic.Base.{
  ℕ, String, Bool, true, List, [], ◌∷◌, Option, none, some, Result, ok, err, Check, ◌>>=◌, ◌>>◌,
  ◌==◌, if◌then◌else◌,
}
use basic.Workflow.Types.{
  Err, invalid, Env, TaskState, CommandEnvelope, Event, text, number, validate_id,
}
use basic.Workflow.Task.Model.{Task}
use basic.Workflow.Plan.Graph.{TaskDefinition, TaskDependency, planned_task_ids, planned_task_graph}
use basic.Workflow.Plan.Kahn.{task_graph_acyclic}

abbrev pub is_root : (String → ℕ) → TaskDefinition → Bool
is_root incoming d = incoming d.id == 0

unfoldable pub planned_task : String → (String → ℕ) → CommandEnvelope → TaskDefinition → Task
planned_task run_id incoming meta d = record {
  id = d.id;
  run_id = run_id;
  state = if is_root incoming d then TaskState.ready else TaskState.pending;
  revision = 1;
  max_attempts = d.max_attempts;
  current_attempt = 0;
  lease = none;
  proposal = none;
  execution = none;
  candidate_commit = "";
  verification = none;
  review = none;
  approval = none;
  created_at = meta.timestamp;
  updated_at = meta.timestamp;
}

-- `uuid.MustParse` does not panic: the command's identifier has been validated.
unfoldable pub planned_event :
    Env → String → (String → ℕ) → CommandEnvelope → TaskDefinition → Event
planned_event env run_id incoming meta d =
    let type : String = if is_root incoming d then "TASK_READY" else "TASK_CREATED" in
    record {
      id = env.sha1_uuid meta.command_id (concat d.id (concat ":" type));
      aggregate_type = "TASK";
      aggregate_id = d.id;
      revision = 1;
      type = type;
      timestamp = meta.timestamp;
      actor = meta.actor;
      correlation_id = meta.correlation_id;
      causation_id = meta.causation_id;
      payload = ("run_id", text run_id) ∷ ("max_attempts", number d.max_attempts) ∷ [];
    }

-- `!taskGraphAcyclic(...)`. The test never runs out of fuel on a planned graph.
abbrev pub reject_cycle : Option Bool → Check Err
reject_cycle (some true) = ok tt
reject_cycle _ = err invalid

module _ (env : Env) (run_id : String) where
  unfoldable pub build_planned_tasks :
      List TaskDefinition → (String → ℕ) → CommandEnvelope → List Task × List Event
  build_planned_tasks [] incoming meta = ([], [])
  build_planned_tasks (d ∷ ds) incoming meta =
      let (tasks, events) = build_planned_tasks ds incoming meta in
      (
        planned_task run_id incoming meta d ∷ tasks,
        planned_event env run_id incoming meta d ∷ events,
      )

  unfoldable pub new_planned_tasks :
      List TaskDefinition
      → List TaskDependency
      → CommandEnvelope
      → Result Err (List Task × List TaskDependency × List Event)
  unfolding validate_id
  new_planned_tasks definitions dependencies meta = do
    validate_id env run_id
    task_ids ← planned_task_ids env definitions
    graph ← planned_task_graph task_ids dependencies
    reject_cycle (task_graph_acyclic (env.range_order task_ids) graph)
    let built = build_planned_tasks definitions graph.incoming meta
    ok (built.0, dependencies, built.1)
