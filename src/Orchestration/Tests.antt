-- ===== src/Orchestration/Tests.antt =====
-- The reconciler's rules at concrete inputs.
mod Rounds
use basic.Base.{◌+◌, ◌*◌, ◌^◌, ◌≤◌, ◌≡◌, refl, List, [], ◌∷◌, arith}
use basic.Orchestration.Backoff.{at_most, saturating_backoff, saturating_backoff_lem}
use basic.Orchestration.Failure.{
  Config, Job, HandleError, interrupted, conflict, other, releases, releases-le,
}

capped : saturating_backoff 1000000000 9 60000000000 ≡ 60000000000
unfolding saturating_backoff
capped = refl

saturating_backoff_example :
    saturating_backoff 1000000000 3 60000000000 ≡ at_most 60000000000 (1000000000 * 2 ^ 3)
saturating_backoff_example = saturating_backoff_lem 1000000000 3 60000000000

abbrev three_tries : Config
three_tries = record { max_retries = 3; initial_backoff = 1000000000 }

abbrev new_job : Job
new_job = record { retry_count = 0; transient_reschedule_count = 0 }

abbrev failures : List HandleError
failures = other ∷ interrupted ∷ conflict ∷ other ∷ conflict ∷ other ∷ conflict ∷ []

four_releases : releases three_tries new_job failures ≡ 4
unfolding releases
four_releases = refl

releases_example : 0 + 0 + releases three_tries new_job failures + 2 ≤ 2 * 3
releases_example =
    releases-le three_tries new_job failures (omega arith) (omega arith) (omega arith)
