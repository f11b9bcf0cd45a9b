-- ===== src/Workflow/Tests/Tasks.antt =====
-- Tests of the task transitions, and the theorems of Workflow/Task at concrete commands.
use mathlib.Core.List.{Memᴰ}
use basic.Base.{◌≡◌, refl, [], ◌∷◌, ok, err, arith, ◌≤◌, ◌+◌, ◌⊎◌}
use basic.Base.Text.{matches_hex}
use basic.Workflow.Types.{
  TaskState, ActorKind, is_terminal_task, revision_conflict, validate_artifact, validate_reason,
  validate_bound_artifact,
}
use basic.Workflow.Task.Model.{validate_lease_ref, validate_task}
use basic.Workflow.Task.Command.{ApproveTask, approve_task, validate_task_command}
use basic.Workflow.Task.Checks.{
  validate_lease, validate_active_lease, validate_human_review, finish_task_transition,
}
use basic.Workflow.Task.Apply.{apply_command, validate_command, apply}
use basic.Workflow.Task.Lifecycle.{Allowed, apply-Allowed}
use basic.Workflow.Task.Effect.{Effect, apply-Effect}
use basic.Workflow.Task.Evidence.{HasEvidence, apply-HasEvidence}
use basic.Workflow.Task.Fencing.{attempt_of, lease_of, apply-fence}
use basic.Workflow.Task.Trace.{replay_terminal, replay}
use basic.Workflow.Task.Approval.{ApprovedBy, replay-accepted}
use basic.Workflow.Task.Attempts.{leases_granted, leases_granted-le-max_attempts, apply_exhausted}
use basic.Workflow.Tests.Samples.{
  env, ready_task, leasing, accepting, one_attempt, leased_task, leasing_event, reasoning_task,
  executing_task, accepting_event, spent_task, failing, failed_task, failing_event,
}

-- One attempt takes a ready task to `ACCEPTED`.
one_attempt_accepted : (replay env ready_task one_attempt).state ≡ TaskState.accepted
unfolding apply validate_command validate_task validate_task_command is_terminal_task apply_command
    validate_lease_ref finish_task_transition validate_lease validate_active_lease validate_artifact
    matches_hex validate_bound_artifact validate_human_review replay
one_attempt_accepted = refl

leasing_ok : apply env ready_task leasing ≡ ok (leased_task, leasing_event ∷ [])
unfolding apply validate_command validate_task validate_task_command is_terminal_task apply_command
    validate_lease_ref finish_task_transition validate_lease validate_active_lease validate_artifact
    matches_hex validate_bound_artifact validate_human_review
leasing_ok = refl

-- A lease of an attempt that is not the next one is refused.
stale_lease : apply env spent_task leasing ≡ err revision_conflict
unfolding apply validate_command validate_task validate_task_command is_terminal_task apply_command
    validate_lease_ref finish_task_transition validate_lease validate_active_lease validate_artifact
    matches_hex validate_bound_artifact validate_human_review
stale_lease = refl

accepting_ok : apply env reasoning_task accepting ≡ ok (executing_task, accepting_event ∷ [])
unfolding apply validate_command validate_task validate_task_command is_terminal_task apply_command
    validate_lease_ref finish_task_transition validate_lease validate_active_lease validate_artifact
    matches_hex validate_bound_artifact validate_human_review
accepting_ok = refl

failing_ok : apply env spent_task failing ≡ ok (failed_task, failing_event ∷ [])
unfolding apply validate_command validate_task validate_task_command is_terminal_task apply_command
    validate_lease_ref finish_task_transition validate_lease validate_active_lease validate_artifact
    matches_hex validate_bound_artifact validate_human_review validate_reason
failing_ok = refl

ready_task-HasEvidence : HasEvidence ready_task
ready_task-HasEvidence = ground arith

reasoning_task-HasEvidence : HasEvidence reasoning_task
reasoning_task-HasEvidence = ground arith

apply-Allowed_example : Allowed ActorKind.workflow_service TaskState.ready TaskState.leased
apply-Allowed_example = apply-Allowed env ready_task leasing leasing_ok

apply-Effect_example : Effect ready_task leasing leased_task (leasing_event ∷ [])
apply-Effect_example = apply-Effect env ready_task leasing leasing_ok

apply-HasEvidence_example : HasEvidence leased_task
apply-HasEvidence_example =
    apply-HasEvidence env ready_task leasing ready_task-HasEvidence leasing_ok

apply-fence_example : attempt_of (lease_of accepting) executing_task.current_attempt ≡ 1
apply-fence_example =
    apply-fence env reasoning_task accepting reasoning_task-HasEvidence accepting_ok

replay_terminal_example : replay env failed_task one_attempt ≡ failed_task
unfolding is_terminal_task
replay_terminal_example = replay_terminal env failed_task one_attempt refl

replay-accepted_example :
    (a : ApproveTask) × Memᴰ (approve_task a) one_attempt
    × ApprovedBy a (replay env ready_task one_attempt)
replay-accepted_example = replay-accepted env ready_task one_attempt refl one_attempt_accepted

leases_granted_example :
    (0 + leases_granted env ready_task one_attempt
      ≡ (replay env ready_task one_attempt).current_attempt)
    × (leases_granted env ready_task one_attempt ≤ (replay env ready_task one_attempt).max_attempts)
leases_granted_example =
    leases_granted-le-max_attempts env ready_task one_attempt ready_task-HasEvidence

apply_exhausted_example :
    (failed_task.state ≡ TaskState.failed) ⊎ (failed_task.state ≡ TaskState.cancelled)
apply_exhausted_example = apply_exhausted env spent_task failing refl (omega arith) failing_ok
