-- ===== src/Workflow/Run/Intake.antt =====
-- The first half of a run's life, up to its approved task graph, and the event of a transition:
-- go/internal/workflow/run.go.
use Prim.Native.String.{◌++◌ as concat}
use basic.Base.{
  ◌+◌, String, true, not, ◌&&◌, none, some, List, [], ◌∷◌, ◌++◌, Result, Check, ok, ◌>>=◌, ◌>>◌,
  fail_if, ◌==◌, str_eq, if◌then◌else◌,
}
use basic.Workflow.Types.{
  Err, invalid, invalid_transition, unauthorized, revision_conflict, Env, RunState, Actor,
  ArtifactRef, CommandEnvelope, Event, Value, text, u64, equal_artifact, validate_artifact,
  validate_reason, validate_bound_artifact,
}
use basic.Workflow.Actors.{is_human, is_workflow_service}
use basic.Workflow.Task.Model.{Task}
use basic.Workflow.Plan.Graph.{TaskDependency}
use basic.Workflow.Plan.Build.{new_planned_tasks}
use basic.Workflow.Run.States.{
  is_draft, is_specification_review, is_task_planning, is_task_plan_review,
}
use basic.Workflow.Run.Model.{Run, validate_run}
use basic.Workflow.Run.Command.{
  CreateRun, ProposeSpecification, RejectSpecification, ApproveSpecification, ProposeTaskGraph,
  RejectTaskGraph, ApproveTaskGraph, create_run, approve_task_graph, validate_run_command,
}

abbrev pub Payload : Type 0
Payload = List (String × Value)

pub record RunTransition : Type 0 where
  pub next : Run
  pub event_type : String
  pub payload : Payload

abbrev pub artifact_payload : String → ArtifactRef → Payload
artifact_payload prefix artifact =
    (concat prefix "_uri", text artifact.uri) ∷ (concat prefix "_digest", text artifact.digest) ∷ []

-- A nil payload becomes the empty map.
unfoldable pub new_run_event : Run → CommandEnvelope → String → Payload → Event
new_run_event run meta event_type payload = record {
  id = meta.command_id;
  aggregate_type = "RUN";
  aggregate_id = run.id;
  revision = run.revision;
  type = event_type;
  timestamp = meta.timestamp;
  actor = meta.actor;
  correlation_id = meta.correlation_id;
  causation_id = meta.causation_id;
  payload = payload;
}

unfoldable pub finish_run_transition : RunTransition → CommandEnvelope → Run × List Event
unfolding new_run_event
finish_run_transition transition meta =
    let next = record (transition.next) {
      revision = u64 (transition.next.revision + 1);
      updated_at = meta.timestamp;
    } in
    (next, new_run_event next meta transition.event_type transition.payload ∷ [])

pub record PlanningDecision : Type 0 where
  pub run : Run
  pub tasks : List Task
  pub dependencies : List TaskDependency
  pub events : List Event

module _ (env : Env) where
  unfoldable pub new_run : CreateRun → Result Err (Run × List Event)
  unfolding new_run_event
  new_run c = do
    validate_run_command env (create_run c)
    fail_if (not (c.meta.expected_revision == 0)) revision_conflict
    fail_if (not (is_human c.meta.actor.kind) && not (is_workflow_service c.meta.actor.kind))
        unauthorized
    let next : Run = record {
      id = c.id;
      state = RunState.draft;
      revision = 1;
      specification = none;
      task_graph = none;
      execution = none;
      candidate_commit = "";
      verification = none;
      review = none;
      approval = none;
      publication = none;
      merge = none;
      created_at = c.meta.timestamp;
      updated_at = c.meta.timestamp;
    }
    ok (next, new_run_event next c.meta "RUN_CREATED" [] ∷ [])

  unfoldable pub validate_specification_review : Run → Actor → ArtifactRef → Check Err
  unfolding equal_artifact
  validate_specification_review r actor specification = do
    fail_if (not (is_specification_review r.state)) invalid_transition
    fail_if (not (is_human actor.kind)) unauthorized
    validate_artifact env specification
    fail_if (elim r.specification [ none ↦ true | some b ↦ not (equal_artifact b specification) ])
        invalid

  unfoldable pub propose_specification_step : Run → ProposeSpecification → Result Err RunTransition
  propose_specification_step r c = do
    fail_if (not (is_draft r.state)) invalid_transition
    fail_if (not (is_workflow_service c.meta.actor.kind)) unauthorized
    validate_artifact env c.specification
    ok (record {
      next = record r {
        specification = some c.specification;
        state = RunState.specification_review;
      };
      event_type = "SPECIFICATION_PROPOSED";
      payload = artifact_payload "specification" c.specification;
    })

  unfoldable pub reject_specification_step : Run → RejectSpecification → Result Err RunTransition
  reject_specification_step r c = do
    validate_specification_review r c.meta.actor c.specification
    validate_reason c.reason
    ok (record {
      next = record r { state = if c.terminal then RunState.rejected else RunState.draft };
      event_type = "SPECIFICATION_REJECTED";
      payload = artifact_payload "specification" c.specification ++ ("reason", text c.reason) ∷ [];
    })

  unfoldable pub approve_specification_step : Run → ApproveSpecification → Result Err RunTransition
  approve_specification_step r c = do
    validate_specification_review r c.meta.actor c.specification
    ok (record {
      next = record r { state = RunState.task_planning };
      event_type = "SPECIFICATION_APPROVED";
      payload = artifact_payload "specification" c.specification;
    })

  unfoldable pub propose_task_graph_step : Run → ProposeTaskGraph → Result Err RunTransition
  propose_task_graph_step r c = do
    fail_if (not (is_task_planning r.state)) invalid_transition
    fail_if (not (is_workflow_service c.meta.actor.kind)) unauthorized
    validate_artifact env c.task_graph
    ok (record {
      next = record r { task_graph = some c.task_graph; state = RunState.task_plan_review };
      event_type = "TASK_GRAPH_PROPOSED";
      payload = artifact_payload "task_graph" c.task_graph;
    })

  unfoldable pub reject_task_graph_step : Run → RejectTaskGraph → Result Err RunTransition
  reject_task_graph_step r c = do
    fail_if (not (is_task_plan_review r.state)) invalid_transition
    fail_if (not (is_human c.meta.actor.kind)) unauthorized
    validate_bound_artifact env r.task_graph c.task_graph
    validate_reason c.reason
    ok (record {
      next = record r { state = if c.terminal then RunState.rejected else RunState.task_planning };
      event_type = "TASK_GRAPH_REJECTED";
      payload = artifact_payload "task_graph" c.task_graph ++ ("reason", text c.reason) ∷ [];
    })

  -- `Run.ApproveTaskGraph`, which makes its own checks.
  unfoldable pub approve_planning : Run → ApproveTaskGraph → Result Err PlanningDecision
  unfolding new_run_event
  approve_planning r c = do
    validate_run env r
    validate_run_command env (approve_task_graph c)
    fail_if (not (str_eq c.id r.id)) invalid
    fail_if (not (c.meta.expected_revision == r.revision)) revision_conflict
    fail_if (not (is_task_plan_review r.state)) invalid_transition
    fail_if (not (is_human c.meta.actor.kind)) unauthorized
    validate_bound_artifact env r.task_graph c.task_graph
    planned ← new_planned_tasks env r.id c.tasks c.dependencies c.meta
    let next : Run = record r {
      state = RunState.ready;
      revision = u64 (r.revision + 1);
      updated_at = c.meta.timestamp;
    }
    ok (record {
      run = next;
      tasks = planned.0;
      dependencies = planned.1;
      events =
          new_run_event next c.meta "TASK_GRAPH_APPROVED"
            (artifact_payload "task_graph" c.task_graph)
          ∷ planned.2;
    })
