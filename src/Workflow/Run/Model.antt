-- ===== src/Workflow/Run/Model.antt =====
-- The run and its validation: go/internal/workflow/run.go.
use basic.Base.{ℕ, String, not, ◌&&◌, ◌||◌, Option, Check, ◌>>◌, fail_if, ◌==◌, str_eq}
use basic.Base.Text.{matches_hex}
use basic.Workflow.Types.{Err, invalid, Env, RunState, ArtifactRef, validate_id, validate_run_state}
use basic.Workflow.Task.Model.{validate_binding}

pub record Run : Type 0 where
  pub id : String
  pub state : RunState
  pub revision : ℕ  -- uint64
  pub specification : Option ArtifactRef
  pub task_graph : Option ArtifactRef
  pub execution : Option ArtifactRef
  pub candidate_commit : String
  pub verification : Option ArtifactRef
  pub review : Option ArtifactRef
  pub approval : Option ArtifactRef
  pub publication : Option ArtifactRef
  pub merge : Option ArtifactRef
  pub created_at : ℕ
  pub updated_at : ℕ

unfoldable pub validate_run : Env → Run → Check Err
unfolding validate_id validate_run_state
validate_run env r = do
  validate_id env r.id
  validate_run_state r.state
  fail_if (r.revision == 0 || r.created_at == 0 || r.updated_at == 0) invalid
  validate_binding env r.specification
  validate_binding env r.task_graph
  validate_binding env r.execution
  validate_binding env r.verification
  validate_binding env r.review
  validate_binding env r.approval
  validate_binding env r.publication
  validate_binding env r.merge
  fail_if (not (str_eq r.candidate_commit "") && not (matches_hex 40 r.candidate_commit)) invalid
