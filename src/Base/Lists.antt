-- ===== src/Base/Lists.antt =====
-- Lists measured by native numbers, and predicates on lists by recursion.
use Prim.Native.Nat.{ℕ, suc, ◌+◌}
use mathlib.Core.Path.{◌≡◌}
use mathlib.Core.List.{List, [], ◌∷◌, ◌++◌}
use native.Mathlib.Omega.{arith}

module _ {ℓ} {A : Type ℓ} where
  abbrev pub length : List A → ℕ
  length [] = 0
  length (x ∷ xs) = suc (length xs)

  pub length-append : (xs ys : List A) → length (xs ++ ys) ≡ length xs + length ys
  length-append [] ys = omega arith
  length-append (x ∷ xs) ys = omega (arith, length-append xs ys)

-- Every element has the property.
abbrev pub All {κ ℓ} : {A : Type ℓ} → (A → Type κ) → List A → Type κ
All Q (a ∷ rest) = Q a × All Q rest
All Q [] = Unit

module _ {κ ℓ} {A : Type ℓ} (Q : A → Type κ) where
  pub All-append : (us vs : List A) → All Q us → All Q vs → All Q (us ++ vs)
  All-append (a ∷ us) vs hu hv = (hu.0, All-append us vs hu.1 hv)
  All-append [] vs hu hv = hv

  pub All-map {μ} : (R : A → Type μ) (us : List A) → ((a : A) → Q a → R a) → All Q us → All R us
  All-map R (a ∷ us) f hu = (f a hu.0, All-map R us f hu.1)
  All-map R [] f hu = tt
