-- ===== src/Workflow/Plan/Kahn/Progress.antt =====
-- The invariant of the loop of `taskGraphAcyclic` and its end.
use basic.Base.{
  ℕ, zero, suc, ◌+◌, ◌≤◌, ◌<◌, ◌≡◌, refl, ◌∙◌, ap, ltb→lt, String, true, false, ◌&&◌, List, [], ◌∷◌,
  ◌++◌, some, arith, eq_iff, if◌then◌else◌, length, length-append, ltb, ◌==◌, Bool-cases, inl, inr,
  All,
}
use native.Mathlib.Numerals.{add-one}
use basic.Base.Int.{pos}
use basic.Workflow.Plan.Graph.{TaskDependency, has}
use basic.Workflow.Plan.Counting.{
  occ, occ-append, has-occ, unmet, dependents, unmet-cons, length-le_of_occ,
}
use basic.Workflow.Plan.Kahn.{Degrees, relax, drain}
use basic.Workflow.Plan.Kahn.Loops.{relax_lem}

-- Each task of `p` has its prerequisites further down: `p` lists what is done, the last first.
abbrev pub Ordered : List TaskDependency → List String → Type 0
Ordered deps [] = Unit
Ordered deps (x ∷ p) = (unmet (has p) deps x ≡ 0) × Ordered deps p

abbrev pub Known : List String → TaskDependency → Type 0
Known ids e = (has ids e.task_id ≡ true) × (has ids e.depends_on_id ≡ true)

pub record Progress (ids : List String) (deps : List TaskDependency) (p q : List String)
    (degrees : Degrees) : Type 0 where
  pub degree : (j : String) → degrees j ≡ pos (unmet (has p) deps j)
  pub counts :
      (j : String) → occ p j + occ q j ≡ (if has ids j && unmet (has p) deps j == 0 then 1 else 0)
  pub ordered : Ordered deps p

has-dependents :
    (ids : List String) (deps : List TaskDependency) (d j : String)
    → All (Known ids) deps
    → 0 < occ (dependents deps d) j
    → has ids j ≡ true
unfolding dependents occ
has-dependents ids [] d j k h = absurd (omega arith)
has-dependents ids (e ∷ es) d j k h =
    let ih = has-dependents ids es d j k.1 in ground (arith, eq_iff e.task_id j)

step_count :
    (id j : String) (ids p q q' : List String) (u m o : ℕ)
    → occ p j + occ (id ∷ q) j ≡ (if has ids j && u == 0 then 1 else 0)
    → u ≡ m + o
    → (0 < o → has ids j ≡ true)
    → occ q' j ≡ occ q j + (if ltb 0 o && m == 0 then 1 else 0)
    → occ (id ∷ p) j + occ q' j ≡ (if has ids j && m == 0 then 1 else 0)
unfolding occ
step_count id j ids p q q' u m o c e k r = elim (Bool-cases (ltb 0 o)) [
  | inl y ↦ ground (arith, k (ltb→lt 0 o y))
  | inr n ↦ let z : o ≡ 0 = ground arith in ground arith
]

module _ (ids : List String) (deps : List TaskDependency) (known : All (Known ids) deps) where
  pub relax-Progress :
      (id : String) (p q : List String) (degrees : Degrees)
      → Progress ids deps p (id ∷ q) degrees
      → Progress ids deps
          (id ∷ p)
          (relax (dependents deps id) degrees q).1
          (relax (dependents deps id) degrees q).0
  relax-Progress id p q degrees v =
      let fresh : has p id ≡ false =
        unfold occ in ground (arith, v.counts id, has-occ p id, eq_iff id id) in
      let u = λ (j : String). unmet-cons p id deps j fresh in
      let r =
        relax_lem (dependents deps id) degrees q (λ j. unmet (has (id ∷ p)) deps j)
          (λ j. v.degree j ∙ ap pos (u j)) in
      record {
        degree = λ j. (r j).0;
        counts = λ j.
            step_count id j ids p q (relax (dependents deps id) degrees q).1 (unmet (has p) deps j)
              (unmet (has (id ∷ p)) deps j) (occ (dependents deps id) j) (v.counts j) (u j)
              (has-dependents ids deps id j known) (r j).1;
        ordered = (unfold occ in ground (arith, v.counts id, eq_iff id id), v.ordered);
      }

  within :
      (p q : List String) (degrees : Degrees)
      → Progress ids deps p q degrees
      → length p + length q ≤ length ids
  within p q degrees v = omega (
    arith,
    length-append p q,
    length-le_of_occ (p ++ q) ids
        (λ j. ground (arith, occ-append p q j, v.counts j, has-occ ids j)),
  )

  -- The loop ends with its queue empty, within as much fuel as there are tasks not yet done.
  pub drain_lem :
      (fuel : ℕ) (p q : List String) (degrees : Degrees)
      → Progress ids deps p q degrees
      → length ids ≤ fuel + length p
      → (p' : List String) × (degrees' : Degrees) × (drain fuel
            (dependents deps)
            degrees
            q
            (length p)
          ≡ some (length p'))
        × Progress ids deps p' [] degrees'
  unfolding drain
  drain_lem zero p [] degrees v f = (p, degrees, refl, v)
  drain_lem (suc fuel) p [] degrees v f = (p, degrees, refl, v)
  drain_lem zero p (id ∷ q) degrees v f = absurd (omega (arith, within p (id ∷ q) degrees v))
  drain_lem (suc fuel) p (id ∷ q) degrees v f =
      let next = relax (dependents deps id) degrees q in
      let (p', degrees', e, w) =
        drain_lem fuel (id ∷ p) next.1 next.0 (relax-Progress id p q degrees v) (omega arith) in
      (p', degrees', ap (drain fuel (dependents deps) next.0 next.1) (add-one (length p)) ∙ e, w)
