-- ===== src/Workflow/Tests/Runs.antt =====
-- The theorems of Workflow/Run at the commands of a run's life.
use basic.Base.{◌≡◌, arith, refl, ok}
use basic.Base.Text.{matches_hex}
use basic.Workflow.Types.{
  RunState, ActorKind, is_terminal_run, validate_artifact, validate_bound_artifact,
}
use basic.Workflow.Run.Model.{validate_run}
use basic.Workflow.Run.Command.{validate_run_command}
use basic.Workflow.Run.Intake.{finish_run_transition}
use basic.Workflow.Run.Completion.{validate_run_human_review}
use basic.Workflow.Run.Apply.{apply_run_command, validate_applied, apply_run}
use basic.Workflow.Run.Decide.{decide_run_command}
use basic.Workflow.Run.Lifecycle.{RunAllowed, Advanced, decide-RunAllowed, decide-revision}
use basic.Workflow.Run.Evidence.{RunEvidence, decide-RunEvidence}
use basic.Workflow.Run.Approvals.{SpecificationApproved, PlanApproved, CandidateApproved}
use basic.Workflow.Run.Merge.{merged-three_approvals}
use basic.Workflow.Tests.Samples.{env}
use basic.Workflow.Tests.Life.{merged, reviewed, approving, life, life-Reached, decision}

approving_ok :
    decide_run_command env reviewed approving
    ≡ ok (decision (decide_run_command env reviewed approving))
unfolding decide_run_command apply_run validate_applied validate_run validate_run_command
    is_terminal_run apply_run_command finish_run_transition validate_run_human_review
    validate_artifact validate_bound_artifact matches_hex
approving_ok = refl

reviewed-RunEvidence : RunEvidence reviewed
unfolding is_terminal_run matches_hex
reviewed-RunEvidence = ground arith

merged-three_approvals_example :
    SpecificationApproved life merged × PlanApproved life merged × CandidateApproved life merged
merged-three_approvals_example = merged-three_approvals env life merged life-Reached refl

decide-RunAllowed_example :
    RunAllowed ActorKind.human RunState.awaiting_approval
      (decision (decide_run_command env reviewed approving)).next.state
decide-RunAllowed_example = decide-RunAllowed env reviewed approving refl approving_ok

decide-revision_example :
    Advanced reviewed approving (decision (decide_run_command env reviewed approving)).next
decide-revision_example = decide-revision env reviewed approving refl approving_ok

decide-RunEvidence_example : RunEvidence (decision (decide_run_command env reviewed approving)).next
decide-RunEvidence_example =
    decide-RunEvidence env reviewed approving refl reviewed-RunEvidence approving_ok
