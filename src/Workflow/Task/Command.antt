-- ===== src/Workflow/Task/Command.antt =====
-- The task commands and what each carries: go/internal/workflow/task.go. A nil interface value is
-- not a command here, so `validateTaskCommand` keeps its later checks.
use basic.Base.{String, Bool, Check, ◌>>◌}
use basic.Workflow.Types.{Err, Env, CommandEnvelope, ArtifactRef, validate_id, validate_envelope}
use basic.Workflow.Task.Model.{LeaseRef}

pub record LeaseTask : Type 0 where
  pub meta : CommandEnvelope
  pub run : String
  pub id : String
  pub lease : LeaseRef

pub record ReleaseTaskLease : Type 0 where
  pub meta : CommandEnvelope
  pub run : String
  pub id : String
  pub lease : LeaseRef

pub record StartReasoning : Type 0 where
  pub meta : CommandEnvelope
  pub run : String
  pub id : String
  pub lease : LeaseRef

pub record RejectTaskProposal : Type 0 where
  pub meta : CommandEnvelope
  pub run : String
  pub id : String
  pub proposal : ArtifactRef
  pub reason : String

pub record AcceptTaskProposal : Type 0 where
  pub meta : CommandEnvelope
  pub run : String
  pub id : String
  pub proposal : ArtifactRef
  pub lease : LeaseRef

pub record RecordTaskExecution : Type 0 where
  pub meta : CommandEnvelope
  pub run : String
  pub id : String
  pub proposal : ArtifactRef
  pub execution : ArtifactRef
  pub candidate_commit : String
  pub lease : LeaseRef

pub record RecordTaskVerification : Type 0 where
  pub meta : CommandEnvelope
  pub run : String
  pub id : String
  pub candidate_commit : String
  pub evidence : ArtifactRef
  pub passed : Bool

pub record RecordTaskReview : Type 0 where
  pub meta : CommandEnvelope
  pub run : String
  pub id : String
  pub candidate_commit : String
  pub review : ArtifactRef
  pub passed : Bool

pub record ApproveTask : Type 0 where
  pub meta : CommandEnvelope
  pub run : String
  pub id : String
  pub candidate_commit : String
  pub review : ArtifactRef
  pub approval : ArtifactRef

pub record RequireTaskRework : Type 0 where
  pub meta : CommandEnvelope
  pub run : String
  pub id : String
  pub candidate_commit : String
  pub review : ArtifactRef
  pub reason : String

pub record RetryTask : Type 0 where
  pub meta : CommandEnvelope
  pub run : String
  pub id : String

pub record FailTask : Type 0 where
  pub meta : CommandEnvelope
  pub run : String
  pub id : String
  pub evidence : ArtifactRef
  pub reason : String

pub record CancelTask : Type 0 where
  pub meta : CommandEnvelope
  pub run : String
  pub id : String
  pub reason : String

pub data TaskCommand : Type 0 where
  lease_task : LeaseTask → TaskCommand
  release_task_lease : ReleaseTaskLease → TaskCommand
  start_reasoning : StartReasoning → TaskCommand
  reject_task_proposal : RejectTaskProposal → TaskCommand
  accept_task_proposal : AcceptTaskProposal → TaskCommand
  record_task_execution : RecordTaskExecution → TaskCommand
  record_task_verification : RecordTaskVerification → TaskCommand
  record_task_review : RecordTaskReview → TaskCommand
  approve_task : ApproveTask → TaskCommand
  require_task_rework : RequireTaskRework → TaskCommand
  retry_task : RetryTask → TaskCommand
  fail_task : FailTask → TaskCommand
  cancel_task : CancelTask → TaskCommand

abbrev pub envelope : TaskCommand → CommandEnvelope
envelope (lease_task c) = c.meta
envelope (release_task_lease c) = c.meta
envelope (start_reasoning c) = c.meta
envelope (reject_task_proposal c) = c.meta
envelope (accept_task_proposal c) = c.meta
envelope (record_task_execution c) = c.meta
envelope (record_task_verification c) = c.meta
envelope (record_task_review c) = c.meta
envelope (approve_task c) = c.meta
envelope (require_task_rework c) = c.meta
envelope (retry_task c) = c.meta
envelope (fail_task c) = c.meta
envelope (cancel_task c) = c.meta

abbrev pub command_task_id : TaskCommand → String
command_task_id (lease_task c) = c.id
command_task_id (release_task_lease c) = c.id
command_task_id (start_reasoning c) = c.id
command_task_id (reject_task_proposal c) = c.id
command_task_id (accept_task_proposal c) = c.id
command_task_id (record_task_execution c) = c.id
command_task_id (record_task_verification c) = c.id
command_task_id (record_task_review c) = c.id
command_task_id (approve_task c) = c.id
command_task_id (require_task_rework c) = c.id
command_task_id (retry_task c) = c.id
command_task_id (fail_task c) = c.id
command_task_id (cancel_task c) = c.id

abbrev pub command_run_id : TaskCommand → String
command_run_id (lease_task c) = c.run
command_run_id (release_task_lease c) = c.run
command_run_id (start_reasoning c) = c.run
command_run_id (reject_task_proposal c) = c.run
command_run_id (accept_task_proposal c) = c.run
command_run_id (record_task_execution c) = c.run
command_run_id (record_task_verification c) = c.run
command_run_id (record_task_review c) = c.run
command_run_id (approve_task c) = c.run
command_run_id (require_task_rework c) = c.run
command_run_id (retry_task c) = c.run
command_run_id (fail_task c) = c.run
command_run_id (cancel_task c) = c.run

unfoldable pub validate_task_command : Env → TaskCommand → Check Err
unfolding validate_id validate_envelope
validate_task_command env c = do
  validate_envelope env (envelope c)
  validate_id env (command_run_id c)
  validate_id env (command_task_id c)
