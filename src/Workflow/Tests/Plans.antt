-- ===== src/Workflow/Tests/Plans.antt =====
-- Tests of planning, and its theorems at a concrete plan.
use basic.Base.{
  ◌≡◌, refl, Bool, true, List, [], ◌∷◌, some, ok, err, arith, String, ℕ, ◌≤◌, ◌↔◌, eq_iff,
}
use basic.Workflow.Types.{ActorKind, invalid, Event}
use basic.Workflow.Task.Model.{Task}
use basic.Workflow.Plan.Graph.{
  TaskDefinition, TaskDependency, Graph, has, add_edge, empty_graph, planned_task_ids,
  planned_task_graph,
}
use basic.Workflow.Plan.Graph.Maps.{collect_edges_lem}
use basic.Workflow.Plan.Counting.{occ}
use basic.Workflow.Plan.Kahn.{task_graph_acyclic}
use basic.Workflow.Plan.Kahn.Ranks.{RankedBy}
use basic.Workflow.Plan.Kahn.Correct.{IsGraphOf, task_graph_acyclic_iff}
use basic.Workflow.Plan.Build.{build_planned_tasks, new_planned_tasks}
use basic.Workflow.Plan.Accepted.{RangesOnce, Accepted, new_planned_tasks-Accepted}
use basic.Workflow.Tests.Samples.{env, meta}

abbrev definitions : List TaskDefinition
definitions =
    record { id = "a"; max_attempts = 2 }
    ∷ record { id = "b"; max_attempts = 1 }
    ∷ record { id = "c"; max_attempts = 3 }
    ∷ []

abbrev edge : String → String → TaskDependency
edge task prerequisite = record { task_id = task; depends_on_id = prerequisite }

-- `c` waits on `a` and `b`, and `b` on `a`.
abbrev dependencies : List TaskDependency
dependencies = edge "b" "a" ∷ edge "c" "b" ∷ edge "c" "a" ∷ []

abbrev ids : List String
ids = "c" ∷ "b" ∷ "a" ∷ []

abbrev graph : Graph
graph = add_edge (add_edge (add_edge empty_graph (edge "b" "a")) (edge "c" "b")) (edge "c" "a")

graph_planned : planned_task_graph ids dependencies ≡ ok graph
unfolding planned_task_graph has
graph_planned = refl

graph_accepted : task_graph_acyclic ids graph ≡ some true
unfolding task_graph_acyclic add_edge
graph_accepted = refl

-- A cycle is refused.
cycle_refused :
    new_planned_tasks env "run" definitions
      (edge "b" "a" ∷ edge "a" "b" ∷ [])
      (meta ActorKind.human 4 100)
    ≡ err invalid
unfolding new_planned_tasks planned_task_ids planned_task_graph task_graph_acyclic add_edge has
cycle_refused = refl

graph-IsGraphOf : IsGraphOf ids dependencies graph
unfolding has planned_task_graph
graph-IsGraphOf = record {
  known = ((refl, refl), ((refl, refl), ((refl, refl), tt)));
  counted =
      λ j. omega (arith, (collect_edges_lem ids dependencies [] empty_graph {g' = graph} refl j).0);
  listed = λ d. (collect_edges_lem ids dependencies [] empty_graph {g' = graph} refl d).1;
}

ids_distinct : (j : String) → occ ids j ≤ 1
unfolding occ
ids_distinct j = ground (
  arith,
  eq_iff "c" j,
  eq_iff "b" j,
  eq_iff "a" j,
  eq_iff "c" "b",
  eq_iff "c" "a",
  eq_iff "b" "a",
)

task_graph_acyclic_example :
    (b : Bool) × (task_graph_acyclic ids graph ≡ some b)
    × ((b ≡ true) ↔ ((rank : String → ℕ) × RankedBy rank dependencies))
task_graph_acyclic_example =
    task_graph_acyclic_iff ids dependencies graph graph-IsGraphOf ids_distinct

each_once : RangesOnce env
each_once names j = refl

abbrev built : List Task × List Event
built = build_planned_tasks env "run" definitions graph.incoming (meta ActorKind.human 4 100)

plan_ok :
    new_planned_tasks env "run" definitions dependencies (meta ActorKind.human 4 100)
    ≡ ok (built.0, dependencies, built.1)
unfolding new_planned_tasks planned_task_ids planned_task_graph task_graph_acyclic add_edge has
plan_ok = refl

new_planned_tasks_example : Accepted "run" definitions dependencies built.0 dependencies built.1
new_planned_tasks_example =
    new_planned_tasks-Accepted env "run" definitions dependencies (meta ActorKind.human 4 100)
      each_once plan_ok
