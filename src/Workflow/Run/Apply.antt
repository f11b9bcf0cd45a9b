-- ===== src/Workflow/Run/Apply.antt =====
-- `Run.Apply` of go/internal/workflow/run.go with `applyCompletion` of run_completion.go.
use basic.Base.{not, List, Result, Check, ok, err, ◌>>=◌, ◌>>◌, fail_if, ◌==◌, str_eq}
use basic.Workflow.Types.{
  Err, invalid, invalid_transition, revision_conflict, Env, Event, is_terminal_run,
}
use basic.Workflow.Run.Model.{Run, validate_run}
use basic.Workflow.Run.Command.{
  RunCommand, create_run, propose_specification, reject_specification, approve_specification,
  propose_task_graph, reject_task_graph, approve_task_graph, start_run, record_run_execution,
  record_run_verification, record_run_review, approve_run, reject_run, record_merge,
  record_draft_pull_request, fail_run, cancel_run, envelope, command_run_id, validate_run_command,
}
use basic.Workflow.Run.Intake.{
  RunTransition, finish_run_transition, propose_specification_step, reject_specification_step,
  approve_specification_step, propose_task_graph_step, reject_task_graph_step,
}
use basic.Workflow.Run.Completion.{
  start_step, record_execution_step, record_verification_step, record_review_step, approve_step,
  reject_step, record_merge_step, record_draft_pull_request_step, fail_step, cancel_step,
}

module _ (env : Env) where
  -- Both switches. A run is not created by `Apply`, and its task graph is not approved by it.
  unfoldable pub apply_run_command : Run → RunCommand → Result Err RunTransition
  unfolding propose_specification_step reject_specification_step approve_specification_step
      propose_task_graph_step reject_task_graph_step start_step record_execution_step
      record_verification_step record_review_step approve_step reject_step record_merge_step
      record_draft_pull_request_step fail_step cancel_step
  apply_run_command r (create_run c) = err invalid
  apply_run_command r (propose_specification c) = propose_specification_step env r c
  apply_run_command r (reject_specification c) = reject_specification_step env r c
  apply_run_command r (approve_specification c) = approve_specification_step env r c
  apply_run_command r (propose_task_graph c) = propose_task_graph_step env r c
  apply_run_command r (reject_task_graph c) = reject_task_graph_step env r c
  apply_run_command r (approve_task_graph c) = err invalid
  apply_run_command r (start_run c) = start_step env r c
  apply_run_command r (record_run_execution c) = record_execution_step env r c
  apply_run_command r (record_run_verification c) = record_verification_step env r c
  apply_run_command r (record_run_review c) = record_review_step env r c
  apply_run_command r (approve_run c) = approve_step env r c
  apply_run_command r (reject_run c) = reject_step env r c
  apply_run_command r (record_merge c) = record_merge_step env r c
  apply_run_command r (record_draft_pull_request c) = record_draft_pull_request_step env r c
  apply_run_command r (fail_run c) = fail_step env r c
  apply_run_command r (cancel_run c) = cancel_step env r c

  unfoldable pub validate_applied : Run → RunCommand → Check Err
  validate_applied r c = do
    validate_run env r
    validate_run_command env c
    fail_if (not (str_eq (command_run_id c) r.id)) invalid
    fail_if (not ((envelope c).expected_revision == r.revision)) revision_conflict
    fail_if (is_terminal_run r.state) invalid_transition

  unfoldable pub apply_run : Run → RunCommand → Result Err (Run × List Event)
  apply_run r c = do
    validate_applied r c
    transition ← apply_run_command r c
    ok (finish_run_transition transition (envelope c))
