-- ===== src/Orchestration/Failure.antt =====
-- `handleFailure` of go/internal/orchestration/reconciler.go, with the counters that `Retry` and
-- `RescheduleTransient` of go/internal/runtime/ledger.go advance. An error is what `errors.Is` tells
-- of it. The ledger's writes are taken to succeed.
use basic.Base.{
  ℕ, suc, ◌+◌, ◌*◌, ◌%◌, ◌≤◌, ◌<◌, List, [], ◌∷◌, if◌then◌else◌, ltb, leb, arith, inl, inr,
  Bool-cases,
}
use basic.Orchestration.Backoff.{saturating_backoff}

abbrev pub minute : ℕ
minute = 60000000000

-- The fields of `Config` that the decision reads.
pub record Config : Type 0 where
  pub max_retries : ℕ
  pub initial_backoff : ℕ

-- The fields of `runtime.Job` that the decision reads.
pub record Job : Type 0 where
  pub retry_count : ℕ
  pub transient_reschedule_count : ℕ

-- A cancelled or overdue context, `ErrTransient`, or any other error.
pub data HandleError : Type 0 where
  interrupted conflict other : HandleError

-- The call that is made: none, `Fail`, or one of the two releases with its delay.
pub data Action : Type 0 where
  pass_on give_up : Action
  reschedule_transient retry_stage : ℕ → Action

abbrev next_count : ℕ → ℕ
next_count n = (n + 1) % 4294967296

unfoldable pub handle_failure : Config → Job → HandleError → Action
handle_failure config job interrupted = pass_on
handle_failure config job conflict =
    if leb config.max_retries (next_count job.transient_reschedule_count)
    then give_up
    else reschedule_transient
        (saturating_backoff config.initial_backoff job.transient_reschedule_count minute)
handle_failure config job other =
    if ltb (next_count job.retry_count) config.max_retries
    then retry_stage (saturating_backoff config.initial_backoff job.retry_count minute)
    else give_up

-- The columns that the released row keeps for its next claim.
abbrev pub released : Job → Action → Job
released job (reschedule_transient delay) = record job {
  transient_reschedule_count = job.transient_reschedule_count + 1;
}
released job (retry_stage delay) = record job { retry_count = job.retry_count + 1 }
released job _ = job

-- How often a job is released when its handler meets these errors, one for each claim. A job given
-- up is not claimed again; one whose error is passed on is claimed as it was.
abbrev releases_after : Action → ℕ → ℕ
releases_after give_up rest = 0
releases_after pass_on rest = rest
releases_after _ rest = suc rest

unfoldable pub releases : Config → Job → List HandleError → ℕ
unfolding handle_failure
releases config job [] = 0
releases config job (e ∷ es) =
    let action = handle_failure config job e in
    releases_after action (releases config (released job action) es)

-- A job is released at most twice `max_retries - 1` times, whatever errors its handler meets: the
-- releases that its counters hold and those to come together. The conditions are that both counters
-- are below `max_retries`, as they are for a new job, and that `max_retries` is a uint32.
pub releases-le :
    (config : Config) (job : Job) (es : List HandleError)
    → config.max_retries < 4294967296
    → job.retry_count < config.max_retries
    → job.transient_reschedule_count < config.max_retries
    → job.retry_count + job.transient_reschedule_count + releases config job es + 2
      ≤ 2 * config.max_retries
unfolding releases
releases-le config job [] m r t = omega arith
releases-le config job (interrupted ∷ es) m r t = releases-le config job es m r t
releases-le config job (conflict ∷ es) m r t =
    elim (Bool-cases (leb config.max_retries (next_count job.transient_reschedule_count))) [
      | inl f ↦ rw f (omega arith)
      | inr f ↦
          let again = record job {
            transient_reschedule_count = job.transient_reschedule_count + 1;
          } in
          let rest = releases-le config again es m r (ground arith) in rw f (omega (arith, rest))
    ]
releases-le config job (other ∷ es) m r t =
    elim (Bool-cases (ltb (next_count job.retry_count) config.max_retries)) [
      | inl f ↦
          let again = record job { retry_count = job.retry_count + 1 } in
          let rest = releases-le config again es m (ground arith) t in rw f (omega (arith, rest))
      | inr f ↦ rw f (omega arith)
    ]
