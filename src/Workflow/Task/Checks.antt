-- ===== src/Workflow/Task/Checks.antt =====
-- The transition of a task, how it is finished, and the checks that several commands share:
-- go/internal/workflow/task.go.
use basic.Base.{
  ℕ, ◌+◌, String, true, not, Option, none, some, List, [], ◌∷◌, Check, ◌>>◌, fail_if, ltb, str_eq,
}
use basic.Workflow.Types.{
  Err, invalid, invalid_transition, unauthorized, revision_conflict, Env, Actor, ArtifactRef,
  CommandEnvelope, Event, Value, u64, validate_bound_artifact,
}
use basic.Workflow.Task.Model.{LeaseRef, Task, equal_lease, validate_lease_ref}
use basic.Workflow.Actors.{is_human}
use basic.Workflow.Task.States.{is_awaiting_approval}

pub record TaskTransition : Type 0 where
  pub next : Task
  pub event_type : String
  pub payload : List (String × Value)

-- A transition whose event carries nothing.
abbrev pub plain : String → Task → TaskTransition
plain event_type next = record { next = next; event_type = event_type; payload = [] }

unfoldable pub finish_task_transition : TaskTransition → CommandEnvelope → Task × List Event
finish_task_transition transition meta =
    let next = record (transition.next) {
      revision = u64 (transition.next.revision + 1);
      updated_at = meta.timestamp;
    } in
    (
      next,
      record {
        id = meta.command_id;
        aggregate_type = "TASK";
        aggregate_id = next.id;
        revision = next.revision;
        type = transition.event_type;
        timestamp = meta.timestamp;
        actor = meta.actor;
        correlation_id = meta.correlation_id;
        causation_id = meta.causation_id;
        payload = transition.payload;
      }
          ∷ [],
    )

module _ (env : Env) where
  unfoldable pub validate_lease : Option LeaseRef → LeaseRef → Check Err
  unfolding equal_lease
  validate_lease bound supplied = do
    validate_lease_ref env supplied
    fail_if (elim bound [ none ↦ true | some b ↦ not (equal_lease b supplied) ]) invalid

  unfoldable pub validate_active_lease : Task → LeaseRef → ℕ → Check Err
  unfolding equal_lease
  validate_active_lease t lease now = do
    validate_lease_ref env lease
    fail_if (elim t.lease [ none ↦ true | some b ↦ not (equal_lease b lease) ]) revision_conflict
    fail_if (elim t.lease [ none ↦ true | some b ↦ not (ltb now b.expires_at) ]) revision_conflict

  unfoldable pub validate_human_review : Task → Actor → String → ArtifactRef → Check Err
  validate_human_review t actor candidate_commit review = do
    fail_if (not (is_awaiting_approval t.state)) invalid_transition
    fail_if (not (is_human actor.kind)) unauthorized
    fail_if (not (str_eq candidate_commit t.candidate_commit)) invalid
    validate_bound_artifact env t.review review
