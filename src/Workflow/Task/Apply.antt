-- ===== src/Workflow/Task/Apply.antt =====
-- The transitions of a task: `Task.Apply` of go/internal/workflow/task.go.
use basic.Base.{
  ◌+◌, not, ◌&&◌, ◌||◌, none, some, List, [], ◌∷◌, Result, Check, ok, ◌>>=◌, ◌>>◌, fail_if, ◌==◌,
  leb, str_eq, if◌then◌else◌,
}
use basic.Base.Text.{matches_hex}
use basic.Workflow.Types.{
  Err, invalid, invalid_transition, unauthorized, revision_conflict, Env, TaskState, Event, text,
  u32, is_terminal_task, validate_artifact, validate_reason, validate_bound_artifact,
}
use basic.Workflow.Task.Model.{Task, validate_lease_ref, validate_task}
use basic.Workflow.Task.Command.{
  LeaseTask, ReleaseTaskLease, StartReasoning, RejectTaskProposal, AcceptTaskProposal,
  RecordTaskExecution, RecordTaskVerification, RecordTaskReview, ApproveTask, RequireTaskRework,
  RetryTask, FailTask, CancelTask, TaskCommand, lease_task, release_task_lease, start_reasoning,
  reject_task_proposal, accept_task_proposal, record_task_execution, record_task_verification,
  record_task_review, approve_task, require_task_rework, retry_task, fail_task, cancel_task,
  envelope, command_task_id, command_run_id, validate_task_command,
}
use basic.Workflow.Actors.{
  is_human, is_workflow_service, is_reasoning_service, is_execution_service,
  is_verification_service, is_review_service, trusted_operational_actor,
}
use basic.Workflow.Task.States.{
  is_ready, is_leased, is_reasoning, is_executing, is_verifying, is_reviewing, is_retryable,
}
use basic.Workflow.Task.Checks.{
  TaskTransition, plain, finish_task_transition, validate_lease, validate_active_lease,
  validate_human_review,
}

module _ (env : Env) where
  unfoldable pub lease : Task → LeaseTask → Result Err TaskTransition
  lease t c = do
    fail_if (not (is_ready t.state) || leb t.max_attempts t.current_attempt) invalid_transition
    fail_if (not (is_workflow_service c.meta.actor.kind)) unauthorized
    validate_lease_ref env c.lease
    fail_if (not (c.lease.fencing_token == u32 (t.current_attempt + 1))) invalid
    ok (record {
      next = record t {
        lease = some c.lease;
        current_attempt = u32 (t.current_attempt + 1);
        state = TaskState.leased;
      };
      event_type = "TASK_LEASED";
      payload = ("lease_id", text c.lease.id) ∷ [];
    })

  unfoldable pub release_lease : Task → ReleaseTaskLease → Result Err TaskTransition
  release_lease t c = do
    fail_if (not (is_leased t.state)) invalid_transition
    fail_if (not (is_workflow_service c.meta.actor.kind)) unauthorized
    validate_lease env t.lease c.lease
    ok (plain "TASK_LEASE_RELEASED" (record t { lease = none; state = TaskState.ready }))

  unfoldable pub begin_reasoning : Task → StartReasoning → Result Err TaskTransition
  begin_reasoning t c = do
    fail_if (not (is_leased t.state)) invalid_transition
    fail_if (not (is_reasoning_service c.meta.actor.kind)) unauthorized
    validate_lease env t.lease c.lease
    ok (plain "TASK_REASONING_STARTED" (record t { state = TaskState.reasoning }))

  unfoldable pub reject_proposal : Task → RejectTaskProposal → Result Err TaskTransition
  reject_proposal t c = do
    fail_if (not (is_reasoning t.state)) invalid_transition
    fail_if (not (is_human c.meta.actor.kind) && not (is_reasoning_service c.meta.actor.kind))
        unauthorized
    validate_artifact env c.proposal
    validate_reason c.reason
    ok (
        plain "TASK_PROPOSAL_REJECTED"
          (record t { proposal = some c.proposal; state = TaskState.proposal_rejected }))

  unfoldable pub accept_proposal : Task → AcceptTaskProposal → Result Err TaskTransition
  accept_proposal t c = do
    fail_if (not (is_reasoning t.state)) invalid_transition
    fail_if (not (is_execution_service c.meta.actor.kind)) unauthorized
    validate_active_lease env t c.lease c.meta.timestamp
    validate_artifact env c.proposal
    ok (
        plain "TASK_EXECUTION_STARTED"
          (record t { proposal = some c.proposal; state = TaskState.executing }))

  -- An invalid report and a malformed commit give one error.
  unfoldable pub record_execution : Task → RecordTaskExecution → Result Err TaskTransition
  record_execution t c = do
    fail_if (not (is_executing t.state)) invalid_transition
    fail_if (not (is_execution_service c.meta.actor.kind)) unauthorized
    validate_active_lease env t c.lease c.meta.timestamp
    validate_bound_artifact env t.proposal c.proposal
    validate_artifact env c.execution
    fail_if (not (matches_hex 40 c.candidate_commit)) invalid
    ok (
        plain "TASK_EXECUTED" (record t {
          execution = some c.execution;
          candidate_commit = c.candidate_commit;
          state = TaskState.verifying;
        }))

  unfoldable pub record_verification : Task → RecordTaskVerification → Result Err TaskTransition
  record_verification t c = do
    fail_if (not (is_verifying t.state)) invalid_transition
    fail_if (not (is_verification_service c.meta.actor.kind)) unauthorized
    fail_if (not (str_eq c.candidate_commit t.candidate_commit)) invalid
    validate_artifact env c.evidence
    ok (
        plain (if c.passed then "TASK_VERIFIED" else "TASK_VERIFICATION_FAILED") (record t {
          verification = some c.evidence;
          state = if c.passed then TaskState.reviewing else TaskState.rework_required;
        }))

  unfoldable pub record_review : Task → RecordTaskReview → Result Err TaskTransition
  record_review t c = do
    fail_if (not (is_reviewing t.state)) invalid_transition
    fail_if (not (is_review_service c.meta.actor.kind)) unauthorized
    fail_if (not (str_eq c.candidate_commit t.candidate_commit)) invalid
    validate_artifact env c.review
    ok (
        plain (if c.passed then "TASK_REVIEWED" else "TASK_REVIEW_FAILED") (record t {
          review = some c.review;
          state = if c.passed then TaskState.awaiting_approval else TaskState.rework_required;
        }))

  unfoldable pub approve : Task → ApproveTask → Result Err TaskTransition
  approve t c = do
    validate_human_review env t c.meta.actor c.candidate_commit c.review
    validate_artifact env c.approval
    ok (plain "TASK_ACCEPTED" (record t { approval = some c.approval; state = TaskState.accepted }))

  unfoldable pub require_rework : Task → RequireTaskRework → Result Err TaskTransition
  require_rework t c = do
    validate_human_review env t c.meta.actor c.candidate_commit c.review
    validate_reason c.reason
    ok (plain "TASK_REWORK_REQUIRED" (record t { state = TaskState.rework_required }))

  unfoldable pub retry : Task → RetryTask → Result Err TaskTransition
  retry t c = do
    fail_if (not (is_retryable t.state)) invalid_transition
    fail_if (not (is_workflow_service c.meta.actor.kind)) unauthorized
    let exhausted = leb t.max_attempts t.current_attempt
    ok (
        plain (if exhausted then "TASK_ATTEMPTS_EXHAUSTED" else "TASK_RETRY_READY") (record t {
          lease = none;
          proposal = none;
          execution = none;
          verification = none;
          review = none;
          approval = none;
          candidate_commit = "";
          state = if exhausted then TaskState.failed else TaskState.ready;
        }))

  unfoldable pub fail : Task → FailTask → Result Err TaskTransition
  fail t c = do
    fail_if (not (trusted_operational_actor c.meta.actor.kind)) unauthorized
    validate_artifact env c.evidence
    validate_reason c.reason
    ok (plain "TASK_FAILED" (record t { state = TaskState.failed }))

  unfoldable pub cancel : Task → CancelTask → Result Err TaskTransition
  cancel t c = do
    fail_if (not (is_workflow_service c.meta.actor.kind)) unauthorized
    validate_reason c.reason
    ok (plain "TASK_CANCELLED" (record t { state = TaskState.cancelled }))

  unfoldable pub apply_command : Task → TaskCommand → Result Err TaskTransition
  unfolding lease release_lease begin_reasoning reject_proposal accept_proposal record_execution
      record_verification record_review approve require_rework retry fail cancel
  apply_command t (lease_task c) = lease t c
  apply_command t (release_task_lease c) = release_lease t c
  apply_command t (start_reasoning c) = begin_reasoning t c
  apply_command t (reject_task_proposal c) = reject_proposal t c
  apply_command t (accept_task_proposal c) = accept_proposal t c
  apply_command t (record_task_execution c) = record_execution t c
  apply_command t (record_task_verification c) = record_verification t c
  apply_command t (record_task_review c) = record_review t c
  apply_command t (approve_task c) = approve t c
  apply_command t (require_task_rework c) = require_rework t c
  apply_command t (retry_task c) = retry t c
  apply_command t (fail_task c) = fail t c
  apply_command t (cancel_task c) = cancel t c

  unfoldable pub validate_command : Task → TaskCommand → Check Err
  validate_command t c = do
    validate_task env t
    validate_task_command env c
    fail_if (not (str_eq (command_task_id c) t.id) || not (str_eq (command_run_id c) t.run_id))
        invalid
    fail_if (not ((envelope c).expected_revision == t.revision)) revision_conflict
    fail_if (is_terminal_task t.state) invalid_transition

  unfoldable pub apply : Task → TaskCommand → Result Err (Task × List Event)
  apply t c = do
    validate_command t c
    transition ← apply_command t c
    ok (finish_task_transition transition (envelope c))
