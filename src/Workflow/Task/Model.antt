-- ===== src/Workflow/Task/Model.antt =====
-- LeaseRef and Task with their validation: go/internal/workflow/task.go.
use basic.Base.{
  ℕ, ◌/◌, ◌%◌, String, Bool, not, ◌&&◌, ◌||◌, Option, none, some, Check, ok, ◌>>◌, fail_if, ◌==◌,
  ltb, str_eq,
}
use basic.Base.Text.{matches_hex}
use basic.Workflow.Types.{
  Err, invalid, Env, TaskState, ArtifactRef, validate_id, validate_artifact, validate_task_state,
}

pub record LeaseRef : Type 0 where
  pub id : String
  pub owner_id : String
  pub expires_at : ℕ  -- time.Time
  pub fencing_token : ℕ  -- uint32

-- `UnixMicro`, up to the distance of the Unix epoch, which an equality does not see.
abbrev pub unix_micro : ℕ → ℕ
unix_micro t = t / 1000 % 18446744073709551616

-- `LeaseRef.Equal`: the expiry is compared to the microsecond.
unfoldable pub equal_lease : LeaseRef → LeaseRef → Bool
equal_lease l other =
    str_eq l.id other.id
    && str_eq l.owner_id other.owner_id
    && unix_micro l.expires_at == unix_micro other.expires_at
    && l.fencing_token == other.fencing_token

pub record Task : Type 0 where
  pub id : String
  pub run_id : String
  pub state : TaskState
  pub revision : ℕ  -- uint64
  pub max_attempts : ℕ  -- uint32
  pub current_attempt : ℕ  -- uint32
  pub lease : Option LeaseRef
  pub proposal : Option ArtifactRef
  pub execution : Option ArtifactRef
  pub candidate_commit : String
  pub verification : Option ArtifactRef
  pub review : Option ArtifactRef
  pub approval : Option ArtifactRef
  pub created_at : ℕ
  pub updated_at : ℕ

module _ (env : Env) where
  unfoldable pub validate_lease_ref : LeaseRef → Check Err
  unfolding validate_id
  validate_lease_ref l = do
    validate_id env l.id
    validate_id env l.owner_id
    fail_if (l.expires_at == 0) invalid
    fail_if (l.fencing_token == 0) invalid

  -- A nil pointer is not validated.
  abbrev pub validate_lease_binding : Option LeaseRef → Check Err
  validate_lease_binding none = ok tt
  validate_lease_binding (some l) = validate_lease_ref l

  abbrev pub validate_binding : Option ArtifactRef → Check Err
  validate_binding none = ok tt
  validate_binding (some a) = validate_artifact env a

  unfoldable pub validate_snapshot : Task → Check Err
  unfolding validate_task_state validate_id
  validate_snapshot t = do
    validate_id env t.id
    validate_id env t.run_id
    validate_task_state t.state
    fail_if
        (t.revision == 0
          || t.max_attempts == 0
          || ltb t.max_attempts t.current_attempt
          || t.created_at == 0
          || t.updated_at == 0)
        invalid

  unfoldable pub validate_bindings : Task → Check Err
  validate_bindings t = do
    validate_lease_binding t.lease
    validate_binding t.proposal
    validate_binding t.execution
    validate_binding t.verification
    validate_binding t.review
    validate_binding t.approval
    fail_if (not (str_eq t.candidate_commit "") && not (matches_hex 40 t.candidate_commit)) invalid

  unfoldable pub validate_task : Task → Check Err
  unfolding validate_snapshot validate_bindings
  validate_task t = do validate_snapshot t; validate_bindings t
