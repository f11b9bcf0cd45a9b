-- ===== src/Workflow/Plan/Kahn/Correct.antt =====
-- `taskGraphAcyclic` accepts exactly the graphs that can be ranked, and always returns.
use basic.Base.{
  ℕ, suc, ◌+◌, ◌≤◌, ◌≡◌, fun_ext, refl, ◌∙◌, ap, ==_iff, String, Bool, true, false, List, [], ◌∷◌,
  ◌++◌, some, arith, eq_iff, if◌then◌else◌, length, ◌==◌, Bool-cases, inl, inr, All, ◌↔◌,
}
use mathlib.Core.Option
use basic.Base.Int.{pos}
use basic.Workflow.Plan.Graph.{TaskDependency, Graph, has, assign}
use basic.Workflow.Plan.Counting.{
  occ, has-occ, unmet, dependents, length-le_of_occ, occ-eq_of_length,
}
use basic.Workflow.Plan.Kahn.{Degrees, seed, drain, task_graph_acyclic}
use basic.Workflow.Plan.Kahn.Loops.{occ-push}
use basic.Workflow.Plan.Kahn.Ranks.{RankedBy, place, places, done_below}
use basic.Workflow.Plan.Kahn.Progress.{Known, Progress, drain_lem}

-- What `plannedTaskGraph` establishes.
pub record IsGraphOf (ids : List String) (deps : List TaskDependency) (g : Graph) : Type 0 where
  pub known : All (Known ids) deps
  pub counted : (j : String) → g.incoming j ≡ unmet (has []) deps j
  pub listed : (d : String) → g.adjacency d ≡ dependents deps d

seed_lem :
    (incoming : String → ℕ) (ids : List String) (degrees : Degrees) (queue : List String)
    (j : String)
    → ((seed incoming ids degrees queue).0 j ≡ (if has ids j then pos (incoming j) else degrees j))
      × (occ (seed incoming ids degrees queue).1 j
          ≡ occ queue j + (if incoming j == 0 then occ ids j else 0))
unfolding seed has occ assign
seed_lem incoming [] degrees queue j = (refl, ground arith)
seed_lem incoming (x ∷ xs) degrees queue j =
    let (a, b) =
      seed_lem incoming xs (assign degrees x (pos (incoming x)))
        (if incoming x == 0 then queue ++ x ∷ [] else queue) j in
    (
      ground (arith, a, eq_iff x j),
      ground (arith, b, occ-push (incoming x == 0) queue x j, eq_iff x j),
    )

unmet-unknown :
    (ids : List String) (done : String → Bool) (es : List TaskDependency) (j : String)
    → All (Known ids) es
    → has ids j ≡ false
    → unmet done es j ≡ 0
unfolding unmet
unmet-unknown ids done [] j k n = refl
unmet-unknown ids done (e ∷ es) j k n =
    ground (arith, unmet-unknown ids done es j k.1 n, eq_iff e.task_id j)

module _ (ids : List String) (deps : List TaskDependency) (g : Graph) (graph : IsGraphOf ids deps g)
    (distinct : (j : String) → occ ids j ≤ 1) where
  start : Degrees × List String
  start = seed g.incoming ids (λ j. pos 0) []

  start-Progress : Progress ids deps [] start.1 start.0
  unfolding start
  start-Progress = record {
    degree = λ j.
        let (a, b) = seed_lem g.incoming ids (λ k. pos 0) [] j in
        ground (arith, a, graph.counted j, unmet-unknown ids (has []) deps j graph.known);
    counts = λ j.
        let (a, b) = seed_lem g.incoming ids (λ k. pos 0) [] j in
        unfold occ in ground (arith, b, graph.counted j, distinct j, has-occ ids j);
    ordered = tt;
  }

  covered :
      (p : List String) (degrees : Degrees)
      → Progress ids deps p [] degrees
      → (j : String) → occ p j ≤ occ ids j
  covered p degrees v j = unfold occ in ground (arith, v.counts j, has-occ ids j)

  finished_tasks :
      (p : List String)
      → ((j : String) → occ p j ≡ occ ids j)
      → (es : List TaskDependency) → All (Known ids) es
      → All (λ e. has p e.task_id ≡ true) es
  finished_tasks p same [] k = tt
  finished_tasks p same (e ∷ es) k = (
    ground (arith, same e.task_id, has-occ p e.task_id, has-occ ids e.task_id, k.0.0),
    finished_tasks p same es k.1,
  )

  -- The test of a loop that ended with `p` finished.
  verdict_iff :
      (p : List String) (degrees : Degrees)
      → Progress ids deps p [] degrees
      → ((length p == length ids) ≡ true) ↔ ((rank : String → ℕ) × RankedBy rank deps)
  verdict_iff p degrees v = (
    λ e.
        let same =
          occ-eq_of_length p ids (covered p degrees v) ((==_iff (length p) (length ids)).0 e) in
        (
          place p,
          places ids deps p degrees v deps (λ done j z. z) (finished_tasks p same deps graph.known),
        ),
    λ r.
        let all = λ (j : String) (k : has ids j ≡ true).
          done_below ids deps p degrees v r.0 graph.known r.1 (suc (r.0 j)) j (omega arith) k in
        let le = length-le_of_occ ids p (λ j. elim (Bool-cases (has ids j)) [
          | inl y ↦ ground (arith, distinct j, has-occ p j, all j y)
          | inr n ↦ ground (arith, has-occ ids j, n)
        ]) in
        let ge = length-le_of_occ p ids (covered p degrees v) in
        (==_iff (length p) (length ids)).1 (omega (arith, le, ge)),
  )

  -- The test always returns, and it returns true exactly when the tasks can be ranked so that each
  -- stands above all that it depends on.
  pub task_graph_acyclic_iff :
      (b : Bool) × (task_graph_acyclic ids g ≡ some b)
      × ((b ≡ true) ↔ ((rank : String → ℕ) × RankedBy rank deps))
  unfolding start task_graph_acyclic
  task_graph_acyclic_iff =
      let (p, degrees, e, v) =
        drain_lem ids deps graph.known (length ids) [] start.1 start.0 start-Progress
          (omega arith) in
      let drained : drain (length ids) g.adjacency start.0 start.1 0 ≡ some (length p) =
        ap (λ (a : String → List String). drain (length ids) a start.0 start.1 0)
          (fun_ext graph.listed)
        ∙ e in
      (
        length p == length ids,
        ap (Option.map (λ visited. visited == length ids)) drained,
        verdict_iff p degrees v,
      )
