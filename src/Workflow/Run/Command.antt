-- ===== src/Workflow/Run/Command.antt =====
-- The run commands and what each carries: go/internal/workflow/run.go and run_completion.go. A nil
-- interface value is not a command here, so `validateRunCommand` keeps its later checks.
use basic.Base.{String, Bool, List, Check, ◌>>◌}
use basic.Workflow.Types.{Err, Env, CommandEnvelope, ArtifactRef, validate_id, validate_envelope}
use basic.Workflow.Plan.Graph.{TaskDefinition, TaskDependency}

pub record CreateRun : Type 0 where
  pub meta : CommandEnvelope
  pub id : String

pub record ProposeSpecification : Type 0 where
  pub meta : CommandEnvelope
  pub id : String
  pub specification : ArtifactRef

pub record RejectSpecification : Type 0 where
  pub meta : CommandEnvelope
  pub id : String
  pub specification : ArtifactRef
  pub reason : String
  pub terminal : Bool

pub record ApproveSpecification : Type 0 where
  pub meta : CommandEnvelope
  pub id : String
  pub specification : ArtifactRef

pub record ProposeTaskGraph : Type 0 where
  pub meta : CommandEnvelope
  pub id : String
  pub task_graph : ArtifactRef

pub record RejectTaskGraph : Type 0 where
  pub meta : CommandEnvelope
  pub id : String
  pub task_graph : ArtifactRef
  pub reason : String
  pub terminal : Bool

pub record ApproveTaskGraph : Type 0 where
  pub meta : CommandEnvelope
  pub id : String
  pub task_graph : ArtifactRef
  pub tasks : List TaskDefinition
  pub dependencies : List TaskDependency

pub record StartRun : Type 0 where
  pub meta : CommandEnvelope
  pub id : String

pub record RecordRunExecution : Type 0 where
  pub meta : CommandEnvelope
  pub id : String
  pub execution : ArtifactRef
  pub candidate_commit : String

pub record RecordRunVerification : Type 0 where
  pub meta : CommandEnvelope
  pub id : String
  pub candidate_commit : String
  pub evidence : ArtifactRef

pub record RecordRunReview : Type 0 where
  pub meta : CommandEnvelope
  pub id : String
  pub candidate_commit : String
  pub review : ArtifactRef

pub record ApproveRun : Type 0 where
  pub meta : CommandEnvelope
  pub id : String
  pub candidate_commit : String
  pub review : ArtifactRef
  pub approval : ArtifactRef

pub record RejectRun : Type 0 where
  pub meta : CommandEnvelope
  pub id : String
  pub candidate_commit : String
  pub review : ArtifactRef
  pub reason : String

pub record RecordMerge : Type 0 where
  pub meta : CommandEnvelope
  pub id : String
  pub candidate_commit : String
  pub approval : ArtifactRef
  pub merge : ArtifactRef

pub record RecordDraftPullRequest : Type 0 where
  pub meta : CommandEnvelope
  pub id : String
  pub candidate_commit : String
  pub approval : ArtifactRef
  pub publication : ArtifactRef

pub record FailRun : Type 0 where
  pub meta : CommandEnvelope
  pub id : String
  pub evidence : ArtifactRef
  pub reason : String

pub record CancelRun : Type 0 where
  pub meta : CommandEnvelope
  pub id : String
  pub reason : String

pub data RunCommand : Type 0 where
  create_run : CreateRun → RunCommand
  propose_specification : ProposeSpecification → RunCommand
  reject_specification : RejectSpecification → RunCommand
  approve_specification : ApproveSpecification → RunCommand
  propose_task_graph : ProposeTaskGraph → RunCommand
  reject_task_graph : RejectTaskGraph → RunCommand
  approve_task_graph : ApproveTaskGraph → RunCommand
  start_run : StartRun → RunCommand
  record_run_execution : RecordRunExecution → RunCommand
  record_run_verification : RecordRunVerification → RunCommand
  record_run_review : RecordRunReview → RunCommand
  approve_run : ApproveRun → RunCommand
  reject_run : RejectRun → RunCommand
  record_merge : RecordMerge → RunCommand
  record_draft_pull_request : RecordDraftPullRequest → RunCommand
  fail_run : FailRun → RunCommand
  cancel_run : CancelRun → RunCommand

abbrev pub envelope : RunCommand → CommandEnvelope
envelope (create_run c) = c.meta
envelope (propose_specification c) = c.meta
envelope (reject_specification c) = c.meta
envelope (approve_specification c) = c.meta
envelope (propose_task_graph c) = c.meta
envelope (reject_task_graph c) = c.meta
envelope (approve_task_graph c) = c.meta
envelope (start_run c) = c.meta
envelope (record_run_execution c) = c.meta
envelope (record_run_verification c) = c.meta
envelope (record_run_review c) = c.meta
envelope (approve_run c) = c.meta
envelope (reject_run c) = c.meta
envelope (record_merge c) = c.meta
envelope (record_draft_pull_request c) = c.meta
envelope (fail_run c) = c.meta
envelope (cancel_run c) = c.meta

abbrev pub command_run_id : RunCommand → String
command_run_id (create_run c) = c.id
command_run_id (propose_specification c) = c.id
command_run_id (reject_specification c) = c.id
command_run_id (approve_specification c) = c.id
command_run_id (propose_task_graph c) = c.id
command_run_id (reject_task_graph c) = c.id
command_run_id (approve_task_graph c) = c.id
command_run_id (start_run c) = c.id
command_run_id (record_run_execution c) = c.id
command_run_id (record_run_verification c) = c.id
command_run_id (record_run_review c) = c.id
command_run_id (approve_run c) = c.id
command_run_id (reject_run c) = c.id
command_run_id (record_merge c) = c.id
command_run_id (record_draft_pull_request c) = c.id
command_run_id (fail_run c) = c.id
command_run_id (cancel_run c) = c.id

unfoldable pub validate_run_command : Env → RunCommand → Check Err
unfolding validate_id validate_envelope
validate_run_command env c = do
  validate_envelope env (envelope c)
  validate_id env (command_run_id c)
