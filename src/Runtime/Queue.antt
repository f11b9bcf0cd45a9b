-- ===== src/Runtime/Queue.antt =====
-- `Claim` of go/internal/runtime/ledger.go, and the calls on the ledger as one sequence.
use basic.Base.{
  ℕ, ◌+◌, ◌%◌, String, Bool, false, not, ◌&&◌, ◌||◌, Option, none, some, List, [], ◌∷◌, Result, ok,
  err, ◌==◌, ltb, leb, if◌then◌else◌,
}
use basic.Base.Table.{count_rows, select_rows, update_rows}
use basic.Workflow.Types.{Env, ArtifactRef}
use basic.Runtime.Jobs.{
  claimed, Job, Jobs, LedgerErr, out_of_range, is_over, is_claimed, has_job, enqueue, renew,
  complete, complete_and_enqueue, retry_job, reschedule_transient, fail, cancel_run,
}

-- What the ledger takes from outside: what a column keeps of a time, and the order of two `uuid`s.
pub record Database : Type 0 where
  pub stored : ℕ → ℕ
  pub is_before : String → String → Bool

abbrev pub is_expired : ℕ → Option ℕ → Bool
is_expired now none = false
is_expired now (some expires) = leb expires now

-- The `WHERE` clause of the query for a job to claim.
abbrev pub is_claimable : ℕ → Job → Bool
is_claimable now row =
    not (is_over row.state)
    && leb row.available_at now
    && (not (is_claimed row.state) || is_expired now row.claim_expires)

-- The job as it is returned.
abbrev pub returned_job : String → ℕ → ℕ → Job → Job
returned_job owner expires fence row = record row {
  state = claimed;
  claim_owner = some owner;
  claim_expires = some expires;
  fencing_token = fence;
}

module _ (d : Database) where
  -- `ORDER BY available_at,job_id`
  abbrev pub comes_before : Job → Job → Bool
  comes_before a b =
      ltb a.available_at b.available_at
      || (a.available_at == b.available_at && d.is_before a.id b.id)

  abbrev pub first_of : Job → Option Job → Job
  first_of row none = row
  first_of row (some other) = if comes_before other row then other else row

  -- The first row in that order, `LIMIT 1`.
  unfoldable pub first_row : Jobs → Option Job
  first_row [] = none
  first_row (row ∷ rows) = some (first_of row (first_row rows))

  -- The rows that the query reads: those that no other transaction has locked.
  abbrev pub is_open : (String → Bool) → ℕ → Job → Bool
  is_open locked now row = not (locked row.id) && is_claimable (d.stored now) row

  abbrev pub claimed_row : String → ℕ → ℕ → Job → Job
  claimed_row owner expires fence row = record row {
    state = claimed;
    claim_owner = some owner;
    claim_expires = some (d.stored expires);
    fencing_token = fence;
  }

  -- The update of the row that was found.
  unfoldable pub claim_row : String → ℕ → Job → Jobs → Result LedgerErr (Option Job × Jobs)
  claim_row owner expires row jobs =
      let fence = (row.fencing_token + 1) % 18446744073709551616 in
      if ltb 9223372036854775807 fence
      then err out_of_range
      else if count_rows (has_job row.id) jobs == 1
      then ok (
        some (returned_job owner expires fence row),
        update_rows (has_job row.id) (claimed_row owner expires fence) jobs,
      )
      else ok (none, jobs)

  abbrev pub claim_found : String → ℕ → Jobs → Option Job → Result LedgerErr (Option Job × Jobs)
  claim_found owner expires jobs none = ok (none, jobs)
  claim_found owner expires jobs (some row) = claim_row owner expires row jobs

  -- `locked` are the rows that other transactions have locked.
  unfoldable pub claim :
      (String → Bool) → String → ℕ → ℕ → Jobs → Result LedgerErr (Option Job × Jobs)
  unfolding claim_row
  claim locked owner now ttl jobs =
      claim_found owner (now + ttl) jobs (first_row (select_rows (is_open locked now) jobs))

-- A call on the ledger.
pub data Call : Type 0 where
  enqueue_call : Job → Call
  claim_call : (String → Bool) → String → ℕ → ℕ → Call
  complete_call : String → String → ℕ → ArtifactRef → Call
  complete_and_enqueue_call : String → String → ℕ → ArtifactRef → Option Job → Call
  renew_call retry_call reschedule_call : String → String → ℕ → ℕ → Call
  fail_call : String → String → ℕ → ArtifactRef → Call
  cancel_call : String → Call

-- A call that fails is rolled back.
abbrev pub settled : Jobs → Result LedgerErr Jobs → Jobs
settled jobs (ok jobs') = jobs'
settled jobs (err e) = jobs

abbrev pub settled_claim : Jobs → Result LedgerErr (Option Job × Jobs) → Jobs
settled_claim jobs (ok (found, jobs')) = jobs'
settled_claim jobs (err e) = jobs

module _ (env : Env) (d : Database) where
  unfoldable pub call : Call → Jobs → Jobs
  call (enqueue_call job) jobs = settled jobs (enqueue d.stored job jobs)
  call (claim_call locked owner now ttl) jobs =
      settled_claim jobs (claim d locked owner now ttl jobs)
  call (complete_call id owner fence result) jobs =
      settled jobs (complete d.stored env id owner fence result jobs)
  call (complete_and_enqueue_call id owner fence result next) jobs =
      settled jobs (complete_and_enqueue d.stored env id owner fence result next jobs)
  call (renew_call id owner fence expires) jobs =
      settled jobs (renew d.stored id owner fence expires jobs)
  call (retry_call id owner fence available) jobs =
      settled jobs (retry_job d.stored id owner fence available jobs)
  call (reschedule_call id owner fence available) jobs =
      settled jobs (reschedule_transient d.stored id owner fence available jobs)
  call (fail_call id owner fence failure) jobs =
      settled jobs (fail d.stored env id owner fence failure jobs)
  call (cancel_call run) jobs = cancel_run d.stored run jobs

  unfoldable pub calls : List Call → Jobs → Jobs
  calls [] jobs = jobs
  calls (c ∷ cs) jobs = calls cs (call c jobs)
