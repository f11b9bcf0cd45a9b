-- ===== src/Base/Outcome.antt =====
-- Go's `(value, error)` results: a value or an error, chained by `do`.
use mathlib.Core.Path.{◌≡◌, refl}
use mathlib.Core.Bool.{Bool, true, false}

pub data Result {ℓ} (E : Type 0) (A : Type ℓ) : Type ℓ where
  ok : A → Result E A
  err : E → Result E A

-- A function whose only result is an error.
abbrev pub Check : Type 0 → Type 0
Check E = Result E (Unit {0})

module _ {ℓ} {E : Type 0} {B : Type ℓ} where
  infixl 5 ◌>>=◌ ◌>>◌
  abbrev pub ◌>>=◌ {κ} : {A : Type κ} → Result E A → (A → Result E B) → Result E B
  err e >>= next = err e
  ok a >>= next = next a

  abbrev pub ◌>>◌ : Check E → Result E B → Result E B
  err e >> rest = err e
  ok tt >> rest = rest

-- `if cond { return err }`.
abbrev pub fail_if : {E : Type 0} → Bool → E → Check E
fail_if true e = err e
fail_if false e = ok tt

module _ {ℓ} {E : Type 0} {B : Type ℓ} {out : B} where
  -- A chain returns a value only when each of its links does.
  pub >>=-eq-ok {κ} :
      {A : Type κ} (first : Result E A) (next : A → Result E B)
      → (first >>= next) ≡ ok out
      → (a : A) × (first ≡ ok a) × (next a ≡ ok out)
  >>=-eq-ok (err e) next chain = cc
  >>=-eq-ok (ok a) next chain = (a, refl, chain)

  pub >>-eq-ok :
      (test : Check E) (rest : Result E B)
      → (test >> rest) ≡ ok out
      → (test ≡ ok tt) × (rest ≡ ok out)
  >>-eq-ok (err e) rest chain = cc
  >>-eq-ok (ok tt) rest chain = (refl, chain)

pub fail_if-eq-ok : {E : Type 0} (b : Bool) (e : E) → fail_if b e ≡ ok tt → b ≡ false
fail_if-eq-ok true e h = cc
fail_if-eq-ok false e h = refl

pub ok-injective {ℓ} :
    {E : Type 0} {A : Type ℓ} {a b : A} → ◌≡◌ {A = Result E A} (ok a) (ok b) → a ≡ b
ok-injective h = cc
