-- ===== src/Base/Int.antt =====
-- Go's `int`, where a counter may fall below zero. `negsuc n` is -(n + 1).
use Prim.Native.Nat.{ℕ, zero, suc}
use mathlib.Core.Bool.{Bool, false}
use basic.Base.Logic.{◌==◌}

pub data ℤ : Type 0 where
  pos : ℕ → ℤ
  negsuc : ℕ → ℤ

-- `i--`
abbrev pub decrement : ℤ → ℤ
decrement (pos zero) = negsuc 0
decrement (pos (suc n)) = pos n
decrement (negsuc n) = negsuc (suc n)

-- `i == 0`
abbrev pub is_zero : ℤ → Bool
is_zero (pos n) = n == 0
is_zero (negsuc n) = false
