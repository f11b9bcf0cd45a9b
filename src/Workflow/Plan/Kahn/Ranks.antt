-- ===== src/Workflow/Plan/Kahn/Ranks.antt =====
-- Ranks: the order in which `taskGraphAcyclic` finishes the tasks ranks them, and whatever can be
-- ranked is finished.
use basic.Base.{
  ℕ, zero, suc, ◌≤◌, ◌<◌, ◌≡◌, refl, subst, ap, String, Bool, true, List, [], ◌∷◌, arith, str_eq,
  eq_iff, if◌then◌else◌, length, Bool-cases, inl, inr, All,
}
use basic.Workflow.Plan.Graph.{TaskDependency, has}
use basic.Workflow.Plan.Counting.{occ, has-occ, unmet}
use basic.Workflow.Plan.Kahn.{Degrees}
use basic.Workflow.Plan.Kahn.Progress.{Ordered, Known, Progress}

-- Every task ranks above what it depends on.
abbrev pub RankedBy : (String → ℕ) → List TaskDependency → Type 0
RankedBy rank = All (λ e. rank e.depends_on_id < rank e.task_id)

-- The place of a text, counted from the end of the list.
pub place : List String → String → ℕ
place [] j = 0
place (x ∷ p) j = if str_eq x j then suc (length p) else place p j

place-le : (p : List String) (j : String) → place p j ≤ length p
unfolding place
place-le [] j = omega arith
place-le (x ∷ p) j = ground (arith, place-le p j)

-- What a done task depends on stands further down than the task.
place-lt :
    (deps : List TaskDependency) (p : List String) (a b : String)
    → Ordered deps p
    → ((j : String) → occ p j ≤ 1)
    → has p a ≡ true
    → ((q : List String) → unmet (has q) deps a ≡ 0 → has q b ≡ true)
    → (has p b ≡ true) × (place p b < place p a)
unfolding place has occ
place-lt deps [] a b o n h e = cc
place-lt deps (x ∷ p) a b o n h e = elim (Bool-cases (str_eq x a)) [
  | inl y ↦
      let x≡a = (eq_iff x a).0 y in
      let here : has p b ≡ true = e p (subst (λ j. unmet (has p) deps j ≡ 0) x≡a o.0) in
      ground (arith, here, n b, has-occ p b, place-le p b, y)
  | inr m ↦
      let ih = place-lt deps p a b o.1 (λ j. omega (arith, n j)) (ground arith) e in
      ground (arith, ih, n b, has-occ p b, m)
]

unmet-zero :
    (done : String → Bool) (es : List TaskDependency) (j : String)
    → All (λ e. e.task_id ≡ j → done e.depends_on_id ≡ true) es
    → unmet done es j ≡ 0
unfolding unmet
unmet-zero done [] j h = refl
unmet-zero done (e ∷ es) j h = ground (arith, unmet-zero done es j h.1, eq_iff e.task_id j, h.0)

-- The two halves over any part of the edges that `deps` includes.
module _ (ids : List String) (deps : List TaskDependency) (p : List String) (degrees : Degrees)
    (v : Progress ids deps p [] degrees) where
  finished-once : (j : String) → occ p j ≤ 1
  finished-once j = unfold occ in ground (arith, v.counts j)

  finished-has : (j : String) → has ids j ≡ true → unmet (has p) deps j ≡ 0 → has p j ≡ true
  finished-has j k z = unfold occ in ground (arith, v.counts j, has-occ p j)

  pub places :
      (es : List TaskDependency)
      → ((done : String → Bool) (j : String) → unmet done deps j ≡ 0 → unmet done es j ≡ 0)
      → All (λ e. has p e.task_id ≡ true) es
      → RankedBy (place p) es
  unfolding unmet
  places [] sub h = tt
  places (e ∷ es) sub h =
      let edge =
        place-lt deps p e.task_id e.depends_on_id v.ordered finished-once h.0
          (λ q z. ground (arith, sub (has q) e.task_id z, eq_iff e.task_id e.task_id)) in
      (edge.1, places es (λ done j z. omega (arith, sub done j z)) h.1)

  module _ (rank : String → ℕ) where
    met :
        (n : ℕ) (j : String)
        → ((k : String) → rank k < n → has ids k ≡ true → has p k ≡ true)
        → rank j ≤ n
        → (es : List TaskDependency) → All (Known ids) es
        → RankedBy rank es
        → All (λ e. e.task_id ≡ j → has p e.depends_on_id ≡ true) es
    met n j ih le [] k r = tt
    met n j ih le (e ∷ es) k r =
        (λ same. ih e.depends_on_id (ground (arith, ap rank same)) k.0.1, met n j ih le es k.1 r.1)

    pub done_below :
        All (Known ids) deps
        → RankedBy rank deps
        → (n : ℕ) (j : String) → rank j < n
        → has ids j ≡ true
        → has p j ≡ true
    done_below k r zero j l in_ids = absurd (omega arith)
    done_below k r (suc n) j l in_ids =
        let z = unmet-zero (has p) deps j (met n j (done_below k r n) (omega arith) deps k r) in
        finished-has j in_ids z
