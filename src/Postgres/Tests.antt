-- ===== src/Postgres/Tests.antt =====
-- Runs of the retry loop, after the unit tests of go/internal/postgres/retry_test.go, and the
-- theorems at concrete inputs. The state counts the calls of the callback.
use basic.Base.{
  ℕ, ◌+◌, ◌≡◌, refl, String, Option, none, some, ok, err, if◌then◌else◌, ltb, ◌||◌, arith,
}
use basic.Postgres.Retry.{Driver, returned, transient, is_transient, retry_transaction}
use basic.Postgres.Retried.{
  Outcome, retry_transaction-Outcome, waiting, AgreeInRange, waits_in_range,
}

-- The callback meets `conflicts` conflicts before it succeeds; no context is cancelled.
abbrev driver : ℕ → String → Driver ℕ String String
driver conflicts failure = record {
  operation = λ s. (s + 1, if ltb s conflicts then err failure else ok "done");
  code = λ e. some e;
  int64n = λ bound s. (s, 0);
  wait = λ duration s. (s, none);
}

third_attempt : retry_transaction (driver 2 "40001") 0 ≡ (3, ok "done")
unfolding retry_transaction is_transient
third_attempt = refl

conflicts_exhausted : retry_transaction (driver 9 "40P01") 0 ≡ (5, err (transient (some "40P01")))
unfolding retry_transaction is_transient
conflicts_exhausted = refl

other_failure : retry_transaction (driver 9 "23505") 0 ≡ (1, err (returned "23505"))
unfolding retry_transaction is_transient
other_failure = refl

retry_transaction_example :
    Outcome
      (driver 2 "40001")
      0
      (retry_transaction (driver 2 "40001") 0).0
      (retry_transaction (driver 2 "40001") 0).1
retry_transaction_example = retry_transaction-Outcome (driver 2 "40001") 0

-- A wait that hangs on any duration out of range, told by its state.
abbrev strict : ℕ → ℕ → ℕ × Option String
strict n s = if ltb n 5000000 || ltb 250000000 n then (s + 100, some "hang") else (s, none)

strict_agrees : AgreeInRange (driver 2 "40001") strict
strict_agrees n s low high = ground arith

waits_in_range_example :
    retry_transaction (driver 2 "40001") 0 ≡ retry_transaction (waiting (driver 2 "40001") strict) 0
waits_in_range_example =
    waits_in_range (driver 2 "40001") strict 0 (λ n s. omega arith) strict_agrees
