-- ===== src/Workflow/Types.antt =====
-- The closed values that runs and tasks share: go/internal/workflow/types.go, and the events
-- and artifact helpers of run.go.
--
-- An error is the sentinel that it wraps, which is what `errors.Is` sees; the wrapped text is
-- left out. A `time.Time` is the number of nanoseconds since Go's zero time, so `UTC`, which
-- changes only the location, is the identity.
use basic.Base.{
  ℕ, ◌%◌, String, Bool, true, false, not, ◌&&◌, Option, none, some, List, Check, ok, err, ◌>>◌,
  fail_if, ◌==◌, str_eq,
}
use basic.Base.Text.{matches_hex, is_blank}

pub data Err : Type 0 where
  invalid invalid_transition unauthorized revision_conflict command_conflict not_found : Err

-- What the package takes from code outside the repository.
pub record Env : Type 0 where
  pub parses_uuid : String → Bool  -- `uuid.Parse` returns no error
  pub is_absolute_uri : String → Bool  -- `url.ParseRequestURI` returns no error and `IsAbs`
  pub range_order : List String → List String  -- the order in which `range` visits a map's keys
  pub sha1_uuid : String → String → String  -- `uuid.NewSHA1` of a name space and a name

abbrev pub u32 : ℕ → ℕ
u32 n = n % 4294967296

abbrev pub u64 : ℕ → ℕ
u64 n = n % 18446744073709551616

-- A text that is none of the listed ones is `unlisted`.
pub data RunState : Type 0 where
  draft specification_review task_planning task_plan_review ready executing verifying : RunState
  reviewing awaiting_approval merge_ready merged rejected failed cancelled : RunState
  unlisted : String → RunState

unfoldable pub validate_run_state : RunState → Check Err
validate_run_state (unlisted s) = err invalid
validate_run_state _ = ok tt

unfoldable pub is_terminal_run : RunState → Bool
is_terminal_run merged = true
is_terminal_run rejected = true
is_terminal_run failed = true
is_terminal_run cancelled = true
is_terminal_run _ = false

pub data TaskState : Type 0 where
  pending ready leased reasoning proposal_rejected executing verifying reviewing : TaskState
  rework_required awaiting_approval accepted failed cancelled : TaskState
  unlisted : String → TaskState

unfoldable pub validate_task_state : TaskState → Check Err
validate_task_state (unlisted s) = err invalid
validate_task_state _ = ok tt

unfoldable pub is_terminal_task : TaskState → Bool
is_terminal_task accepted = true
is_terminal_task failed = true
is_terminal_task cancelled = true
is_terminal_task _ = false

pub data ActorKind : Type 0 where
  human workflow_service reasoning_service execution_service verification_service : ActorKind
  review_service publication_service merge_service python model : ActorKind
  unlisted : String → ActorKind

pub record Actor : Type 0 where
  pub id : String
  pub kind : ActorKind

validate_actor_kind : ActorKind → Check Err
validate_actor_kind (unlisted s) = err invalid
validate_actor_kind _ = ok tt

pub record ArtifactRef : Type 0 where
  pub uri : String
  pub digest : String

unfoldable pub equal_artifact : ArtifactRef → ArtifactRef → Bool
equal_artifact a b = str_eq a.uri b.uri && str_eq a.digest b.digest

pub record CommandEnvelope : Type 0 where
  pub command_id : String
  pub actor : Actor
  pub expected_revision : ℕ  -- uint64
  pub timestamp : ℕ  -- time.Time
  pub correlation_id : String
  pub causation_id : String

unfoldable pub validate_reason : String → Check Err
unfolding is_blank
validate_reason reason = fail_if (is_blank reason) invalid

module _ (env : Env) where
  unfoldable pub validate_id : String → Check Err
  validate_id value = fail_if (not (env.parses_uuid value)) invalid

  unfoldable pub validate_actor : Actor → Check Err
  unfolding validate_actor_kind validate_id
  validate_actor a = do validate_id a.id; validate_actor_kind a.kind

  unfoldable pub validate_artifact : ArtifactRef → Check Err
  validate_artifact a = do
    fail_if (not (env.is_absolute_uri a.uri)) invalid
    fail_if (not (matches_hex 64 a.digest)) invalid

  -- The source ranges over a map of the three identifiers: they fail alike, in any order.
  unfoldable pub validate_envelope : CommandEnvelope → Check Err
  unfolding validate_id validate_actor
  validate_envelope e = do
    validate_id e.command_id
    validate_id e.correlation_id
    validate_id e.causation_id
    validate_actor e.actor
    fail_if (e.timestamp == 0) invalid

  -- A stored reference against the one that a command supplies.
  unfoldable pub validate_bound_artifact : Option ArtifactRef → ArtifactRef → Check Err
  unfolding equal_artifact
  validate_bound_artifact bound supplied = do
    validate_artifact supplied
    fail_if (elim bound [ none ↦ true | some b ↦ not (equal_artifact b supplied) ]) invalid

-- The values of an event's payload, a Go map from texts.
pub data Value : Type 0 where
  text : String → Value
  number : ℕ → Value

pub record Event : Type 0 where
  pub id : String
  pub aggregate_type : String
  pub aggregate_id : String
  pub revision : ℕ  -- uint64
  pub type : String
  pub timestamp : ℕ
  pub actor : Actor
  pub correlation_id : String
  pub causation_id : String
  pub payload : List (String × Value)

-- `string(state)`, the text of a state.
unfoldable pub run_state_text : RunState → String
run_state_text RunState.draft = "DRAFT"
run_state_text RunState.specification_review = "SPECIFICATION_REVIEW"
run_state_text RunState.task_planning = "TASK_PLANNING"
run_state_text RunState.task_plan_review = "TASK_PLAN_REVIEW"
run_state_text RunState.ready = "READY"
run_state_text RunState.executing = "EXECUTING"
run_state_text RunState.verifying = "VERIFYING"
run_state_text RunState.reviewing = "REVIEWING"
run_state_text RunState.awaiting_approval = "AWAITING_APPROVAL"
run_state_text RunState.merge_ready = "MERGE_READY"
run_state_text RunState.merged = "MERGED"
run_state_text RunState.rejected = "REJECTED"
run_state_text RunState.failed = "FAILED"
run_state_text RunState.cancelled = "CANCELLED"
run_state_text (RunState.unlisted s) = s

unfoldable pub task_state_text : TaskState → String
task_state_text TaskState.pending = "PENDING"
task_state_text TaskState.ready = "READY"
task_state_text TaskState.leased = "LEASED"
task_state_text TaskState.reasoning = "REASONING"
task_state_text TaskState.proposal_rejected = "PROPOSAL_REJECTED"
task_state_text TaskState.executing = "EXECUTING"
task_state_text TaskState.verifying = "VERIFYING"
task_state_text TaskState.reviewing = "REVIEWING"
task_state_text TaskState.rework_required = "REWORK_REQUIRED"
task_state_text TaskState.awaiting_approval = "AWAITING_APPROVAL"
task_state_text TaskState.accepted = "ACCEPTED"
task_state_text TaskState.failed = "FAILED"
task_state_text TaskState.cancelled = "CANCELLED"
task_state_text (TaskState.unlisted s) = s
