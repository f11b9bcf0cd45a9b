-- ===== src/Postgres/Retry.antt =====
-- `IsTransient` and `RetryTransaction` of go/internal/postgres/retry.go. The callback, the random
-- draw and the wait for a timer or a cancelled context are parameters on a state of the world. A
-- duration is its nanoseconds.
use basic.Base.{
  ℕ, zero, suc, ◌+◌, ◌*◌, ◌/◌, String, Bool, false, not, ◌||◌, Option, none, some, Result, ok, err,
  ◌==◌, ltb, if◌then◌else◌, str_eq,
}

abbrev pub max_transaction_attempts : ℕ
max_transaction_attempts = 5

abbrev pub initial_retry_backoff : ℕ
initial_retry_backoff = 10000000

abbrev pub maximum_retry_backoff : ℕ
maximum_retry_backoff = 250000000

-- What the loop calls: `operation`, the code of a wrapped `PgError`, `rand.Int64N`, and the
-- `select`, which gives the error of a cancelled context or nothing when the timer fires first.
pub record Driver (S : Type 0) (A : Type 0) (E : Type 0) : Type 0 where
  pub operation : S → S × Result E A
  pub code : E → Option String
  pub int64n : ℕ → S → S × ℕ
  pub wait : ℕ → S → S × Option E

-- An error passed on as it is, or `ErrTransient` with the last conflict.
pub data Failure (E : Type 0) : Type 0 where
  returned : E → Failure E
  transient : Option E → Failure E

-- `x << n`, which stays far below 64 bits for the attempts made.
unfoldable pub shift_left : ℕ → ℕ → ℕ
shift_left x zero = x
shift_left x (suc n) = 2 * shift_left x n

unfoldable pub backoff : ℕ → ℕ
unfolding shift_left
backoff attempt =
    let b = shift_left initial_retry_backoff attempt in
    if ltb maximum_retry_backoff b then maximum_retry_backoff else b

unfoldable pub jittered : ℕ → ℕ → ℕ
unfolding backoff
jittered attempt draw = backoff attempt / 2 + draw

module _ {S A E : Type 0} (d : Driver S A E) where
  unfoldable pub is_transient : E → Bool
  is_transient e = elim (d.code e) [ none ↦ false | some c ↦ str_eq c "40001" || str_eq c "40P01" ]

  -- The draw and the wait of one round.
  unfoldable pub pause : ℕ → S → S × Option E
  unfolding jittered
  pause attempt s =
      let (s', draw) = d.int64n (backoff attempt / 2 + 1) s in d.wait (jittered attempt draw) s'

  abbrev pub after_pause : (S → S × Result (Failure E) A) → S × Option E → S × Result (Failure E) A
  after_pause rest (s, some e) = (s, err (returned e))
  after_pause rest (s, none) = rest s

  unfoldable pub after_operation :
      ℕ → (Option E → S → S × Result (Failure E) A) → S × Result E A → S × Result (Failure E) A
  unfolding pause
  after_operation attempt rest (s, ok a) = (s, ok a)
  after_operation attempt rest (s, err e) =
      if not (is_transient e)
      then (s, err (returned e))
      else if attempt + 1 == max_transaction_attempts
      then (s, err (transient (some e)))
      else after_pause (rest (some e)) (pause attempt s)

  -- The rounds that are left, the number of this one, and the last conflict.
  unfoldable pub rounds : ℕ → ℕ → Option E → S → S × Result (Failure E) A
  unfolding after_operation
  rounds zero attempt last s = (s, err (transient last))
  rounds (suc left) attempt last s =
      after_operation attempt (rounds left (attempt + 1)) (d.operation s)

  unfoldable pub retry_transaction : S → S × Result (Failure E) A
  unfolding rounds
  retry_transaction = rounds max_transaction_attempts 0 none
