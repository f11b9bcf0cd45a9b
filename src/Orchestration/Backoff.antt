-- ===== src/Orchestration/Backoff.antt =====
-- `saturatingBackoff` of go/internal/orchestration/reconciler.go. A duration is its nanoseconds.
-- A value is doubled only while it is at most half of `maximum`, so int64 does not wrap around.
use basic.Base.{ℕ, zero, suc, ◌*◌, ◌/◌, ◌^◌, ◌≤◌, ◌≡◌, ◌||◌, if◌then◌else◌, ltb, leb, arith}

-- The last test of the function, and the bound that it promises.
abbrev pub at_most : ℕ → ℕ → ℕ
at_most maximum value = if ltb maximum value then maximum else value

-- `for range exponent`, from the value reached so far.
unfoldable pub saturating_backoff : ℕ → ℕ → ℕ → ℕ
saturating_backoff value zero maximum = at_most maximum value
saturating_backoff value (suc exponent) maximum =
    let rest = saturating_backoff (value * 2) exponent maximum in
    if leb maximum value || ltb (maximum / 2) value then maximum else rest

mul_pow-suc : (x n : ℕ) → x * 2 ^ suc n ≡ (x * 2) * 2 ^ n
mul_pow-suc x n = grind arith

le-mul_pow : (x n : ℕ) → x ≤ x * 2 ^ n
le-mul_pow x zero = omega arith
le-mul_pow x (suc n) = omega (arith, mul_pow-suc x n, le-mul_pow (x * 2) n)

-- The back-off is the initial delay doubled `exponent` times, or `maximum` when that is less.
pub saturating_backoff_lem :
    (initial exponent maximum : ℕ)
    → saturating_backoff initial exponent maximum ≡ at_most maximum (initial * 2 ^ exponent)
unfolding saturating_backoff
saturating_backoff_lem x zero m = ground arith
saturating_backoff_lem x (suc n) m =
    ground (arith, saturating_backoff_lem (x * 2) n m, mul_pow-suc x n, le-mul_pow (x * 2) n)
