-- ===== src/Workflow/Plan/Kahn.antt =====
-- The acyclicity test: `taskGraphAcyclic` of go/internal/workflow/task.go. The first loop ranges
-- over a map, so `ids` is any order of the identifiers. Each identifier is taken from the queue at
-- most once, so as much fuel as there are identifiers is enough; `none` is fuel that ran out.
pub mod Loops
pub mod Progress
pub mod Ranks
pub mod Correct
use basic.Base.{
  ℕ, zero, suc, ◌+◌, String, Bool, List, [], ◌∷◌, ◌++◌, Option, none, some, ◌==◌, if◌then◌else◌,
  length,
}
use mathlib.Core.Option
use basic.Base.Int.{ℤ, pos, decrement, is_zero}
use basic.Workflow.Plan.Graph.{Graph, assign}

abbrev pub Degrees : Type 0
Degrees = String → ℤ

-- `for id := range taskIDs`
pub seed : (String → ℕ) → List String → Degrees → List String → Degrees × List String
seed incoming [] degrees queue = (degrees, queue)
seed incoming (id ∷ ids) degrees queue =
    seed incoming ids (assign degrees id (pos (incoming id)))
      (if incoming id == 0 then queue ++ id ∷ [] else queue)

-- `for _, dependent := range adjacency[id]`
pub relax : List String → Degrees → List String → Degrees × List String
relax [] degrees queue = (degrees, queue)
relax (d ∷ ds) degrees queue =
    let degree = decrement (degrees d) in
    relax ds (assign degrees d degree) (if is_zero degree then queue ++ d ∷ [] else queue)

-- `for len(queue) > 0`; the result is `visited`.
pub drain : ℕ → (String → List String) → Degrees → List String → ℕ → Option ℕ
drain fuel adjacency degrees [] visited = some visited
drain zero adjacency degrees (id ∷ queue) visited = none
drain (suc fuel) adjacency degrees (id ∷ queue) visited =
    let (degrees', queue') = relax (adjacency id) degrees queue in
    drain fuel adjacency degrees' queue' (visited + 1)

unfoldable pub task_graph_acyclic : List String → Graph → Option Bool
unfolding seed relax drain
task_graph_acyclic ids g =
    let (degrees, queue) = seed g.incoming ids (λ j. pos 0) [] in
    Option.map (λ visited. visited == length ids) (drain (length ids) g.adjacency degrees queue 0)
