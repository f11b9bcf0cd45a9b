-- ===== src/Runtime/Jobs.antt =====
-- The jobs of the runtime ledger and the statements on their table, for go/internal/runtime/ledger.go
-- and the schema in go/internal/workflow/migrations/0018_runtime_ledger.sql. A job is a row: the times
-- of creation and of the last update, which nothing here reads, are left out. The two columns of a
-- reference, which are null together, are one option.
use basic.Base.{
  ℕ, ◌+◌, String, Bool, true, false, not, ◌&&◌, ◌||◌, Option, none, some, List, [], ◌∷◌, ◌++◌,
  Result, Check, ok, err, ◌>>=◌, ◌==◌, str_eq, if◌then◌else◌,
}
use basic.Base.Table.{find_row, count_rows, update_rows}
use basic.Workflow.Types.{Err, Env, ArtifactRef, validate_artifact}

-- The states that the column's constraint admits.
pub data JobState : Type 0 where
  ready claimed retry completed failed cancelled : JobState

pub record Job : Type 0 where
  pub id : String
  pub run_id : String
  pub task_id : Option String
  pub attempt : ℕ
  pub stage : String
  pub state : JobState
  pub available_at : ℕ
  pub claim_owner : Option String
  pub claim_expires : Option ℕ
  pub fencing_token : ℕ
  pub retry_count : ℕ
  pub transient_reschedule_count : ℕ
  pub result : Option ArtifactRef
  pub failure : Option ArtifactRef

-- The ledger's sentinels, an invalid reference, `pgx.ErrNoRows`, or a token that the column of type
-- `bigint` does not hold.
pub data LedgerErr : Type 0 where
  conflict stale_fence terminal not_found no_rows out_of_range : LedgerErr
  invalid_reference : Err → LedgerErr

abbrev pub Jobs : Type 0
Jobs = List Job

-- `state IN ('COMPLETED','FAILED','CANCELLED')`
abbrev pub is_over : JobState → Bool
is_over completed = true
is_over failed = true
is_over cancelled = true
is_over _ = false

abbrev pub is_claimed : JobState → Bool
is_claimed claimed = true
is_claimed _ = false

abbrev pub has_job : String → Job → Bool
has_job id row = str_eq row.id id

-- `task_id IS NOT DISTINCT FROM`
abbrev pub same_task : Option String → Option String → Bool
same_task none none = true
same_task (some a) (some b) = str_eq a b
same_task _ _ = false

abbrev pub same_slot : Job → Job → Bool
same_slot job row =
    str_eq row.run_id job.run_id
    && same_task row.task_id job.task_id
    && row.attempt == job.attempt
    && str_eq row.stage job.stage

abbrev pub is_known : Option String → Bool
is_known none = false
is_known (some task) = true

-- The primary key, and the unique constraint, for which a null differs from a null.
abbrev pub collides : Job → Job → Bool
collides job row = str_eq row.id job.id || (is_known job.task_id && same_slot job row)

-- A claim's holder: `job_id=$1 AND state='CLAIMED' AND claim_owner=$2 AND fencing_token=$3`.
abbrev pub owned_by : String → Option String → Bool
owned_by owner none = false
owned_by owner (some other) = str_eq other owner

abbrev pub holds : String → String → ℕ → Job → Bool
holds id owner fence row =
    has_job id row
    && is_claimed row.state
    && owned_by owner row.claim_owner
    && row.fencing_token == fence

unfoldable pub classify_job_update : String → Jobs → LedgerErr
classify_job_update id jobs = elim (find_row (has_job id) jobs) [
  | none ↦ not_found
  | some row ↦ if is_over row.state then terminal else stale_fence
]

-- An update of the claimed job by its holder.
unfoldable pub update_held : String → String → ℕ → (Job → Job) → Jobs → Result LedgerErr Jobs
update_held id owner fence change jobs =
    if count_rows (holds id owner fence) jobs == 1
    then ok (update_rows (holds id owner fence) change jobs)
    else err (classify_job_update id jobs)

abbrev pub checked : Check Err → Result LedgerErr Jobs → Result LedgerErr Jobs
checked (ok _) rest = rest
checked (err e) rest = err (invalid_reference e)

module _ (stored : ℕ → ℕ) where
  -- The row that is inserted, with the columns' defaults.
  abbrev pub fresh_job : Job → Job
  fresh_job job = record job {
    state = ready;
    available_at = stored job.available_at;
    claim_owner = none;
    claim_expires = none;
    fencing_token = 0;
    retry_count = 0;
    transient_reschedule_count = 0;
    result = none;
    failure = none;
  }

  abbrev pub known_as : Job → Jobs → Option Job → Result LedgerErr Jobs
  known_as job jobs none = err no_rows
  known_as job jobs (some row) = if str_eq row.id job.id then ok jobs else err conflict

  -- `EnqueueTx` and `enqueueSuccessorTx`
  unfoldable pub enqueue : Job → Jobs → Result LedgerErr Jobs
  enqueue job jobs = elim (find_row (collides job) jobs) [
    | none ↦ ok (jobs ++ fresh_job job ∷ [])
    | some other ↦ known_as job jobs (find_row (same_slot job) jobs)
  ]

  abbrev pub extended : ℕ → Job → Job
  extended expires row = record row { claim_expires = some (stored expires) }

  abbrev pub ended : JobState → Job → Job
  ended state row = record row { state = state; claim_owner = none; claim_expires = none }

  abbrev pub delayed : ℕ → Job → Job
  delayed available row = record row {
    state = retry;
    available_at = stored available;
    claim_owner = none;
    claim_expires = none;
  }

  unfoldable pub renew : String → String → ℕ → ℕ → Jobs → Result LedgerErr Jobs
  renew id owner fence expires = update_held id owner fence (extended expires)

  unfoldable pub complete : Env → String → String → ℕ → ArtifactRef → Jobs → Result LedgerErr Jobs
  complete env id owner fence result jobs = checked (validate_artifact env result) (
      update_held id owner fence (λ row. record (ended completed row) { result = some result })
        jobs)

  abbrev pub enqueue_next : Option Job → Jobs → Result LedgerErr Jobs
  enqueue_next none jobs = ok jobs
  enqueue_next (some job) jobs = enqueue job jobs

  unfoldable pub complete_and_enqueue :
      Env → String → String → ℕ → ArtifactRef → Option Job → Jobs → Result LedgerErr Jobs
  complete_and_enqueue env id owner fence result next jobs =
      checked (validate_artifact env result) (
        update_held id owner fence (λ row. record (ended completed row) { result = some result })
          jobs
        >>= enqueue_next next)

  unfoldable pub retry_job : String → String → ℕ → ℕ → Jobs → Result LedgerErr Jobs
  retry_job id owner fence available =
      update_held id owner fence
        (λ row. record (delayed available row) { retry_count = row.retry_count + 1 })

  unfoldable pub reschedule_transient : String → String → ℕ → ℕ → Jobs → Result LedgerErr Jobs
  reschedule_transient id owner fence available = update_held id owner fence (λ row.
      record (delayed available row) {
        transient_reschedule_count = row.transient_reschedule_count + 1;
      })

  unfoldable pub fail : Env → String → String → ℕ → ArtifactRef → Jobs → Result LedgerErr Jobs
  fail env id owner fence failure jobs = checked (validate_artifact env failure) (
      update_held id owner fence (λ row. record (ended failed row) { failure = some failure }) jobs)

  abbrev pub is_open_in : String → Job → Bool
  is_open_in run row = str_eq row.run_id run && not (is_over row.state)

  unfoldable pub cancel_run : String → Jobs → Jobs
  cancel_run run = update_rows (is_open_in run) (ended cancelled)
