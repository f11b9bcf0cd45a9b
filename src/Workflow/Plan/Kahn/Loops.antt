-- ===== src/Workflow/Plan/Kahn/Loops.antt =====
-- What the loops of `taskGraphAcyclic` keep.
use basic.Base.{
  ℕ, suc, ◌+◌, ◌≡◌, refl, ◌∙◌, String, Bool, true, false, ◌&&◌, List, [], ◌∷◌, ◌++◌, arith, str_eq,
  eq_iff, if◌then◌else◌, ltb, ◌==◌,
}
use basic.Base.Int.{pos, decrement, is_zero}
use basic.Workflow.Plan.Graph.{assign}
use basic.Workflow.Plan.Kahn.{Degrees, relax}
use basic.Workflow.Plan.Counting.{occ, occ-append}

-- A test decides whether `d` joins the queue.
pub occ-push :
    (b : Bool) (queue : List String) (d j : String)
    → occ (if b then queue ++ d ∷ [] else queue) j
      ≡ occ queue j + (if b && str_eq d j then 1 else 0)
unfolding occ
occ-push true queue d j = omega (arith, occ-append queue (d ∷ []) j)
occ-push false queue d j = omega arith

push_total :
    (m o q : ℕ) (same b : Bool) {p : ℕ}
    → p ≡ q + (if b && same then 1 else 0)
    → (same ≡ true → b ≡ ((m + o) == 0))
    → p + (if ltb 0 o && m == 0 then 1 else 0)
      ≡ q + (if ltb 0 ((if same then 1 else 0) + o) && m == 0 then 1 else 0)
push_total m o q true b e z = ground (arith, z refl)
push_total m o q false b e z = ground arith

-- `ds` waits on one task; `m` is what is left once that task is done.
pub relax_lem :
    (ds : List String) (degrees : Degrees) (queue : List String) (m : String → ℕ)
    → ((j : String) → degrees j ≡ pos (m j + occ ds j))
    → (j : String)
    → ((relax ds degrees queue).0 j ≡ pos (m j))
      × (occ (relax ds degrees queue).1 j
          ≡ occ queue j + (if ltb 0 (occ ds j) && m j == 0 then 1 else 0))
unfolding relax occ
relax_lem [] degrees queue m h j = (ground (arith, h j), omega arith)
relax_lem (d ∷ ds) degrees queue m h j =
    let at_d : degrees d ≡ pos (suc (m d + occ ds d)) = ground (arith, h d, eq_iff d d) in
    let after : (k : String) → assign degrees d (decrement (degrees d)) k ≡ pos (m k + occ ds k) =
      λ k. unfold assign in ground (arith, at_d, h k, eq_iff d k) in
    let zero_at : is_zero (decrement (degrees d)) ≡ ((m d + occ ds d) == 0) =
      ground (arith, at_d) in
    let push = occ-push (is_zero (decrement (degrees d))) queue d j in
    let ih =
      relax_lem ds (assign degrees d (decrement (degrees d)))
        (if is_zero (decrement (degrees d)) then queue ++ d ∷ [] else queue) m after j in
    (
      ih.0,
      ih.1
          ∙ push_total (m j) (occ ds j) (occ queue j) (str_eq d j) (is_zero (decrement (degrees d)))
              push (λ e. rw (← (eq_iff d j).0 e) zero_at),
    )
