-- ===== src/Postgres/Retried.antt =====
-- What a retried transaction promises, for `RetryTransaction` of go/internal/postgres/retry.go: a
-- description of its outcomes that does not follow the loop, and the lengths of its waits.
use basic.Base.{
  ℕ, zero, suc, ◌+◌, ◌/◌, ◌≤◌, ◌<◌, ◌≡◌, refl, ap, ◌∙◌, fun_ext, true, false, Option, none, some,
  Result, ok, err, ◌==◌, arith, inl, inr, Bool-cases, ==_iff,
}
use basic.Postgres.Retry.{
  Driver, Failure, returned, transient, is_transient, pause, after_pause, after_operation, rounds,
  retry_transaction, backoff, jittered, shift_left, initial_retry_backoff, max_transaction_attempts,
}

module _ {S A E : Type 0} (d : Driver S A E) where
  -- `Retrying s n t`: from `s`, `n` attempts met a conflict and each was waited out, up to `t`.
  pub data Retrying (s : S) : ℕ → S → Type 0 where
    start : Retrying s 0 s
    again :
        {n : ℕ} {t : S} (t' u : S) (e : E)
        → Retrying s n t
        → d.operation t ≡ (t', err e)
        → is_transient d e ≡ true
        → pause d n t' ≡ (u, none)
        → Retrying s (n + 1) u

  -- How a call ends, in the state `u` and with the result `out`.
  pub data Outcome (s : S) (u : S) (out : Result (Failure E) A) : Type 0 where
    succeeded :
        (n : ℕ) (t : S) (a : A)
        → Retrying s n t
        → n < max_transaction_attempts
        → d.operation t ≡ (u, ok a)
        → out ≡ ok a
        → Outcome s u out
    refused :
        (n : ℕ) (t : S) (e : E)
        → Retrying s n t
        → n < max_transaction_attempts
        → d.operation t ≡ (u, err e)
        → is_transient d e ≡ false
        → out ≡ err (returned e)
        → Outcome s u out
    canceled :
        (n : ℕ) (t t' : S) (e why : E)
        → Retrying s n t
        → n + 1 < max_transaction_attempts
        → d.operation t ≡ (t', err e)
        → is_transient d e ≡ true
        → pause d n t' ≡ (u, some why)
        → out ≡ err (returned why)
        → Outcome s u out
    exhausted :
        (n : ℕ) (t : S) (e : E)
        → Retrying s n t
        → n + 1 ≡ max_transaction_attempts
        → d.operation t ≡ (u, err e)
        → is_transient d e ≡ true
        → out ≡ err (transient (some e))
        → Outcome s u out

  -- The outcomes of a loop that goes on with `rest`.
  module _ (s : S) (n : ℕ) (t : S) (rest : Option E → S → S × Result (Failure E) A) where
    pause-Outcome :
        (t' : S) (e : E) (p : S × Option E)
        → pause d n t' ≡ p
        → Retrying s n t
        → n + 1 < max_transaction_attempts
        → d.operation t ≡ (t', err e)
        → is_transient d e ≡ true
        → ((u : S) → Retrying s (n + 1) u → Outcome s (rest (some e) u).0 (rest (some e) u).1)
        → Outcome s (after_pause d (rest (some e)) p).0 (after_pause d (rest (some e)) p).1
    pause-Outcome t' e (u, some why) h r l o c goes = canceled n t t' e why r l o c h refl
    pause-Outcome t' e (u, none) h r l o c goes = goes u (again t' u e r o c h)

    operation-Outcome :
        (p : S × Result E A)
        → d.operation t ≡ p
        → Retrying s n t
        → n < max_transaction_attempts
        → ((e : E) (u : S)
            → n + 1 < max_transaction_attempts
            → Retrying s (n + 1) u
            → Outcome s (rest (some e) u).0 (rest (some e) u).1)
        → Outcome s (after_operation d n rest p).0 (after_operation d n rest p).1
    unfolding after_operation
    operation-Outcome (u, ok a) h r l goes = succeeded n t a r l h refl
    operation-Outcome (u, err e) h r l goes = elim (Bool-cases (is_transient d e)) [
      | inl c ↦ elim (Bool-cases (n + 1 == max_transaction_attempts)) [
        | inl f ↦ rw c (rw f (exhausted n t e r ((==_iff (n + 1) 5).0 f) h c refl))
        | inr f ↦
            let less : n + 1 < max_transaction_attempts = ground arith in
            rw c (rw f (pause-Outcome u e (pause d n u) refl r less h c (λ v. goes e v less)))
      ]
      | inr c ↦ rw c (refused n t e r l h c refl)
    ]

  rounds-Outcome :
      (s : S) (left n : ℕ) (last : Option E) (t : S)
      → suc left + n ≡ max_transaction_attempts
      → Retrying s n t
      → Outcome s (rounds d (suc left) n last t).0 (rounds d (suc left) n last t).1
  unfolding rounds
  rounds-Outcome s zero n last t full r =
      operation-Outcome s n t (rounds d zero (n + 1)) (d.operation t) refl r (omega arith)
        (λ e u l q. absurd (omega arith))
  rounds-Outcome s (suc left) n last t full r =
      operation-Outcome s n t (rounds d (suc left) (n + 1)) (d.operation t) refl r (omega arith)
        (λ e u l q. rounds-Outcome s left (n + 1) (some e) u (omega arith) q)

  -- A call of `RetryTransaction` ends in one of four ways: an attempt succeeds and its value is
  -- returned; an attempt fails for another reason than a conflict and its error is returned; the
  -- context is cancelled in a wait and its error is returned; or the fifth attempt meets a conflict
  -- and `ErrTransient` is returned with it. Every earlier attempt met a conflict and was waited out,
  -- so there are never more than five.
  pub retry_transaction-Outcome :
      (s : S) → Outcome s (retry_transaction d s).0 (retry_transaction d s).1
  unfolding retry_transaction
  retry_transaction-Outcome s = rounds-Outcome s 4 0 none s refl start

le-shift_left : (x n : ℕ) → x ≤ shift_left x n
unfolding shift_left
le-shift_left x zero = omega arith
le-shift_left x (suc n) = omega (arith, le-shift_left x n)

jittered_bounds :
    (attempt draw : ℕ)
    → draw < backoff attempt / 2 + 1
    → (5000000 ≤ jittered attempt draw) × (jittered attempt draw ≤ 250000000)
unfolding jittered backoff
jittered_bounds attempt draw h = ground (arith, le-shift_left initial_retry_backoff attempt)

module _ {S A E : Type 0} (d : Driver S A E) (other : ℕ → S → S × Option E) where
  -- The same driver with another wait.
  abbrev pub waiting : Driver S A E
  waiting = record d { wait = other }

  -- `rand.Int64N` draws below its bound, and the two waits agree from 5 ms to 250 ms.
  abbrev pub Draws : Type 0
  Draws = (n : ℕ) (s : S) → (d.int64n (n + 1) s).1 < n + 1

  abbrev pub AgreeInRange : Type 0
  AgreeInRange = (n : ℕ) (s : S) → 5000000 ≤ n → n ≤ 250000000 → d.wait n s ≡ other n s

  same_pause :
      Draws → AgreeInRange → (attempt : ℕ) (s : S) → pause d attempt s ≡ pause waiting attempt s
  unfolding pause
  same_pause draws agree attempt s =
      let drawn = d.int64n (backoff attempt / 2 + 1) s in
      let (low, high) = jittered_bounds attempt drawn.1 (draws (backoff attempt / 2) s) in
      agree (jittered attempt drawn.1) drawn.0 low high

  same_after_operation :
      (attempt : ℕ) (rest rest' : Option E → S → S × Result (Failure E) A) (p : S × Result E A)
      → Draws
      → AgreeInRange
      → rest ≡ rest'
      → after_operation d attempt rest p ≡ after_operation waiting attempt rest' p
  unfolding after_operation is_transient
  same_after_operation attempt rest rest' (s, ok a) draws agree same = refl
  same_after_operation attempt rest rest' (s, err e) draws agree same =
      elim (Bool-cases (is_transient d e)) [
        | inl c ↦ elim (Bool-cases (attempt + 1 == max_transaction_attempts)) [
          | inl f ↦ rw c (rw f refl)
          | inr f ↦ rw c (
              rw f (
                ap (after_pause d (rest (some e))) (same_pause draws agree attempt s)
                ∙ ap (λ r. after_pause d (r (some e)) (pause waiting attempt s)) same))
        ]
        | inr c ↦ rw c refl
      ]

  same_rounds :
      (left attempt : ℕ)
      → Draws
      → AgreeInRange
      → rounds d left attempt ≡ rounds waiting left attempt
  unfolding rounds
  same_rounds zero attempt draws agree = refl
  same_rounds (suc left) attempt draws agree = fun_ext (λ last. fun_ext (λ s.
      same_after_operation attempt (rounds d left (attempt + 1)) (rounds waiting left (attempt + 1))
        (d.operation s) draws agree (same_rounds left (attempt + 1) draws agree)))

  -- Every wait of a call of `RetryTransaction` lasts from 5 ms, half of the first back-off, to 250 ms:
  -- the call goes the same with any other wait that agrees with the given one on these durations. The
  -- condition is that `rand.Int64N` draws below its bound.
  pub waits_in_range :
      (s : S) → Draws → AgreeInRange → retry_transaction d s ≡ retry_transaction waiting s
  unfolding retry_transaction
  waits_in_range s draws agree =
      ap (λ r. r none s) (same_rounds max_transaction_attempts 0 draws agree)
