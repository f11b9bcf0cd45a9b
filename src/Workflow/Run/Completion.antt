-- ===== src/Workflow/Run/Completion.antt =====
-- The second half of a run's life, from its start to a terminal state:
-- go/internal/workflow/run_completion.go.
use basic.Base.{
  String, Bool, true, false, not, Option, none, some, [], Result, Check, ok, ◌>>◌, fail_if, str_eq,
}
use basic.Base.Text.{matches_hex}
use basic.Workflow.Types.{
  Err, invalid, invalid_transition, unauthorized, Env, RunState, Actor, ArtifactRef,
  is_terminal_run, validate_artifact, validate_reason, validate_bound_artifact,
}
use basic.Workflow.Actors.{
  is_human, is_workflow_service, is_execution_service, is_verification_service, is_review_service,
  is_publication_service, is_merge_service, trusted_operational_actor,
}
use basic.Workflow.Run.States.{
  is_ready, is_executing, is_verifying, is_reviewing, is_awaiting_approval, is_merge_ready,
}
use basic.Workflow.Run.Model.{Run}
use basic.Workflow.Run.Command.{
  StartRun, RecordRunExecution, RecordRunVerification, RecordRunReview, ApproveRun, RejectRun,
  RecordMerge, RecordDraftPullRequest, FailRun, CancelRun,
}
use basic.Workflow.Run.Intake.{RunTransition, artifact_payload}

-- A transition whose event carries nothing.
abbrev pub plain : String → Run → RunTransition
plain event_type next = record { next = next; event_type = event_type; payload = [] }

abbrev pub is_bound : Option ArtifactRef → Bool
is_bound none = false
is_bound (some a) = true

module _ (env : Env) where
  unfoldable pub validate_run_human_review : Run → Actor → String → ArtifactRef → Check Err
  validate_run_human_review r actor candidate_commit review = do
    fail_if (not (is_awaiting_approval r.state)) invalid_transition
    fail_if (not (is_human actor.kind)) unauthorized
    fail_if (not (str_eq candidate_commit r.candidate_commit)) invalid
    validate_bound_artifact env r.review review

  unfoldable pub record_draft_pull_request_step :
      Run → RecordDraftPullRequest → Result Err RunTransition
  record_draft_pull_request_step r c = do
    fail_if (not (is_merge_ready r.state)) invalid_transition
    fail_if (not (is_publication_service c.meta.actor.kind)) unauthorized
    fail_if (not (str_eq c.candidate_commit r.candidate_commit)) invalid
    validate_bound_artifact env r.approval c.approval
    validate_artifact env c.publication
    fail_if (is_bound r.publication) invalid
    ok (record {
      next = record r { publication = some c.publication };
      event_type = "DRAFT_PULL_REQUEST_CREATED";
      payload = artifact_payload "publication" c.publication;
    })

  unfoldable pub start_step : Run → StartRun → Result Err RunTransition
  start_step r c = do
    fail_if (not (is_ready r.state)) invalid_transition
    fail_if (not (is_workflow_service c.meta.actor.kind)) unauthorized
    ok (plain "RUN_EXECUTION_STARTED" (record r { state = RunState.executing }))

  -- An invalid report and a malformed commit give one error.
  unfoldable pub record_execution_step : Run → RecordRunExecution → Result Err RunTransition
  record_execution_step r c = do
    fail_if (not (is_executing r.state)) invalid_transition
    fail_if (not (is_execution_service c.meta.actor.kind)) unauthorized
    validate_artifact env c.execution
    fail_if (not (matches_hex 40 c.candidate_commit)) invalid
    ok (
        plain "RUN_EXECUTED" (record r {
          execution = some c.execution;
          candidate_commit = c.candidate_commit;
          state = RunState.verifying;
        }))

  unfoldable pub record_verification_step : Run → RecordRunVerification → Result Err RunTransition
  record_verification_step r c = do
    fail_if (not (is_verifying r.state)) invalid_transition
    fail_if (not (is_verification_service c.meta.actor.kind)) unauthorized
    fail_if (not (str_eq c.candidate_commit r.candidate_commit)) invalid
    validate_artifact env c.evidence
    ok (
        plain "RUN_VERIFIED"
          (record r { verification = some c.evidence; state = RunState.reviewing }))

  unfoldable pub record_review_step : Run → RecordRunReview → Result Err RunTransition
  record_review_step r c = do
    fail_if (not (is_reviewing r.state)) invalid_transition
    fail_if (not (is_review_service c.meta.actor.kind)) unauthorized
    fail_if (not (str_eq c.candidate_commit r.candidate_commit)) invalid
    validate_artifact env c.review
    ok (
        plain "RUN_REVIEWED"
          (record r { review = some c.review; state = RunState.awaiting_approval }))

  unfoldable pub approve_step : Run → ApproveRun → Result Err RunTransition
  approve_step r c = do
    validate_run_human_review r c.meta.actor c.candidate_commit c.review
    validate_artifact env c.approval
    ok (
        plain "RUN_APPROVED"
          (record r { approval = some c.approval; state = RunState.merge_ready }))

  unfoldable pub reject_step : Run → RejectRun → Result Err RunTransition
  reject_step r c = do
    validate_run_human_review r c.meta.actor c.candidate_commit c.review
    validate_reason c.reason
    ok (plain "RUN_REJECTED" (record r { state = RunState.rejected }))

  unfoldable pub record_merge_step : Run → RecordMerge → Result Err RunTransition
  record_merge_step r c = do
    fail_if (not (is_merge_ready r.state)) invalid_transition
    fail_if (not (is_merge_service c.meta.actor.kind)) unauthorized
    fail_if (not (str_eq c.candidate_commit r.candidate_commit)) invalid
    validate_bound_artifact env r.approval c.approval
    validate_artifact env c.merge
    ok (plain "RUN_MERGED" (record r { merge = some c.merge; state = RunState.merged }))

  unfoldable pub fail_step : Run → FailRun → Result Err RunTransition
  unfolding is_terminal_run
  fail_step r c = do
    fail_if (is_terminal_run r.state) invalid_transition
    fail_if (not (trusted_operational_actor c.meta.actor.kind)) unauthorized
    validate_artifact env c.evidence
    validate_reason c.reason
    ok (plain "RUN_FAILED" (record r { state = RunState.failed }))

  unfoldable pub cancel_step : Run → CancelRun → Result Err RunTransition
  unfolding is_terminal_run
  cancel_step r c = do
    fail_if (is_terminal_run r.state) invalid_transition
    fail_if (not (is_human c.meta.actor.kind)) unauthorized
    validate_reason c.reason
    ok (plain "RUN_CANCELLED" (record r { state = RunState.cancelled }))
