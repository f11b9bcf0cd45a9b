-- ===== src/Workflow/Plan/Accepted.antt =====
-- What an accepted plan guarantees.
use mathlib.Core.Path.{subst₂}
use basic.Base.{
  All-map, fail_if, map, ok-injective, ℕ, ◌+◌, ◌≤◌, ◌<◌, ◌≡◌, ◌≢◌, refl, ap, String, Bool, true,
  List, [], ◌∷◌, Option, some, ok, arith, if◌then◌else◌, All, >>-eq-ok, >>=-eq-ok, ◌==◌,
}
use basic.Workflow.Types.{invalid, Env, TaskState, CommandEnvelope, Event, validate_id}
use basic.Workflow.Task.Model.{Task}
use basic.Workflow.Plan.Graph.{
  TaskDefinition, TaskDependency, Graph, has, is_empty, empty_graph, collect_ids, collect_edges,
  planned_task_ids, planned_task_graph,
}
use basic.Workflow.Plan.Graph.Maps.{
  Checked, collect_edges_lem, collect_edges-Checked, collect_ids_lem,
}
use basic.Workflow.Plan.Counting.{occ, has-occ, unmet}
use basic.Workflow.Plan.Kahn.{task_graph_acyclic}
use basic.Workflow.Plan.Kahn.Progress.{Known}
use basic.Workflow.Plan.Kahn.Ranks.{RankedBy}
use basic.Workflow.Plan.Kahn.Correct.{IsGraphOf, task_graph_acyclic_iff}
use basic.Workflow.Plan.Build.{planned_task, build_planned_tasks, reject_cycle, new_planned_tasks}

-- Go's `range` over a map visits each key once.
abbrev pub RangesOnce : Env → Type 0
RangesOnce env = (ids : List String) (j : String) → occ (env.range_order ids) j ≡ occ ids j

-- The prerequisites of a task, counted.
abbrev pub prerequisites : List TaskDependency → String → ℕ
prerequisites deps = unmet (has []) deps

-- A planned task for its definition: `READY` exactly if it has no prerequisite.
pub record Planned (run_id : String) (deps : List TaskDependency) (d : TaskDefinition) (t : Task)
    : Type 0 where
  pub id : t.id ≡ d.id
  pub run : t.run_id ≡ run_id
  pub attempts : t.max_attempts ≡ d.max_attempts
  pub unused : t.current_attempt ≡ 0
  pub first : t.revision ≡ 1
  pub state :
      t.state ≡ (if prerequisites deps d.id == 0 then TaskState.ready else TaskState.pending)

-- The two lists are as long and go together, element by element.
pub data Together {A B : Type 0} (R : A → B → Type 0) : List A → List B → Type 0 where
  nil : Together R [] []
  cons :
      {x : A} {y : B} {xs : List A} {ys : List B}
      → R x y
      → Together R xs ys
      → Together R (x ∷ xs) (y ∷ ys)

pub record Accepted (run_id : String) (defs : List TaskDefinition) (deps : List TaskDependency)
    (tasks : List Task) (kept : List TaskDependency) (events : List Event) : Type 0 where
  pub kept_all : kept ≡ deps
  pub planned : Together (Planned run_id deps) defs tasks
  pub distinct : (j : String) → occ (map (λ d. d.id) defs) j ≤ 1
  pub limited : All (λ d. 0 < d.max_attempts) defs
  pub checked :
      All
        (λ e.
          (0 < occ (map (λ d. d.id) defs) e.task_id)
          × (0 < occ (map (λ d. d.id) defs) e.depends_on_id)
          × (e.task_id ≢ e.depends_on_id))
        deps
  pub ranked : (rank : String → ℕ) × RankedBy rank deps

build-Together :
    (env : Env) (run_id : String) (deps : List TaskDependency) (defs : List TaskDefinition)
    (incoming : String → ℕ) (meta : CommandEnvelope)
    → ((j : String) → incoming j ≡ prerequisites deps j)
    → Together (Planned run_id deps) defs (build_planned_tasks env run_id defs incoming meta).0
unfolding build_planned_tasks planned_task
build-Together env run_id deps [] incoming meta h = nil
build-Together env run_id deps (d ∷ ds) incoming meta h =
    cons
      (record {
        id = refl;
        run = refl;
        attempts = refl;
        unused = refl;
        first = refl;
        state = ap (λ n. if n == 0 then TaskState.ready else TaskState.pending) (h d.id);
      })
      (build-Together env run_id deps ds incoming meta h)

has_of_occ :
    (xs ys : List String) (j : String) → occ ys j ≡ occ xs j → has xs j ≡ true → has ys j ≡ true
has_of_occ xs ys j e h = ground (arith, has-occ xs j, has-occ ys j)

reject_cycle-eq-ok : (o : Option Bool) (b : Bool) → o ≡ some b → reject_cycle o ≡ ok tt → b ≡ true
reject_cycle-eq-ok o b e h = ground arith

module _ (env : Env) (run_id : String) (defs : List TaskDefinition) (deps : List TaskDependency)
    (meta : CommandEnvelope) where
  -- The checks that an accepted plan has passed.
  record Passed (ids : List String) (g : Graph) : Type 0 where
    collected : collect_ids env defs [] ≡ ok ids
    mapped : collect_edges ids deps [] empty_graph ≡ ok g
    acyclic : reject_cycle (task_graph_acyclic (env.range_order ids) g) ≡ ok tt

  new_planned_tasks-Passed :
      {tasks : List Task} {kept : List TaskDependency} {events : List Event}
      → new_planned_tasks env run_id defs deps meta ≡ ok (tasks, kept, events)
      → (ids : List String) × (g : Graph) × Passed ids g
        × ((build_planned_tasks env run_id defs g.incoming meta).0 ≡ tasks)
        × (deps ≡ kept)
  unfolding new_planned_tasks planned_task_ids planned_task_graph
  new_planned_tasks-Passed h =
      let (_, h1) = >>-eq-ok (validate_id env run_id) _ h in
      let (ids, e2, h2) = >>=-eq-ok (planned_task_ids env defs) _ h1 in
      let (g, e3, h3) = >>=-eq-ok (planned_task_graph ids deps) _ h2 in
      let (e4, h4) = >>-eq-ok (reject_cycle (task_graph_acyclic (env.range_order ids) g)) _ h3 in
      let (_, c2) = >>-eq-ok (fail_if (is_empty defs) invalid) _ e2 in
      let built = ok-injective h4 in
      (
        ids,
        g,
        record { collected = c2; mapped = e3; acyclic = e4 },
        ap (λ r. r.0) built,
        ap (λ r. r.1) built,
      )

  module _ (once : RangesOnce env) (ids : List String) (g : Graph) (v : Passed ids g) where
    names :
        ((j : String) → occ ids j ≤ 1)
        × ((j : String) → occ ids j ≡ 0 + occ (map (λ d. d.id) defs) j)
        × All (λ d. (env.parses_uuid d.id ≡ true) × (0 < d.max_attempts)) defs
    names = unfold occ in collect_ids_lem env defs [] v.collected (λ j. omega arith)

    passed_edges : All (Checked ids) deps
    passed_edges = collect_edges-Checked ids deps [] empty_graph v.mapped

    incoming-eq-prerequisites : (j : String) → g.incoming j ≡ prerequisites deps j
    incoming-eq-prerequisites j =
        omega (arith, (collect_edges_lem ids deps [] empty_graph v.mapped j).0)

    graph-IsGraphOf : IsGraphOf (env.range_order ids) deps g
    graph-IsGraphOf = record {
      known =
          All-map (Checked ids) (Known (env.range_order ids)) deps
            (λ e c. (
              has_of_occ ids (env.range_order ids) e.task_id (once ids e.task_id) c.0,
              has_of_occ ids (env.range_order ids) e.depends_on_id (once ids e.depends_on_id) c.1,
            ))
            passed_edges;
      counted = incoming-eq-prerequisites;
      listed = λ d. (collect_edges_lem ids deps [] empty_graph v.mapped d).1;
    }

    passed-ranked : (rank : String → ℕ) × RankedBy rank deps
    passed-ranked =
        let (b, run, iff) =
          task_graph_acyclic_iff (env.range_order ids) deps g graph-IsGraphOf
            (λ j. omega (arith, once ids j, names.0 j)) in
        iff.0 (reject_cycle-eq-ok (task_graph_acyclic (env.range_order ids) g) b run v.acyclic)

    passed-Accepted :
        {events : List Event}
        → Accepted run_id defs deps
            (build_planned_tasks env run_id defs g.incoming meta).0
            deps
            events
    passed-Accepted = record {
      kept_all = refl;
      planned = build-Together env run_id deps defs g.incoming meta incoming-eq-prerequisites;
      distinct = λ j. omega (arith, names.0 j, names.1 j);
      limited = All-map _ _ defs (λ d p. p.1) names.2;
      checked =
          All-map _ _ deps
            (λ e c. (in_definitions e.task_id c.0, in_definitions e.depends_on_id c.1, c.2))
            passed_edges;
      ranked = passed-ranked;
    }
      where
        in_definitions :
            (j : String) → has ids j ≡ true → 0 < occ (map (λ (d : TaskDefinition). d.id) defs) j
        in_definitions j h = ground (arith, has-occ ids j, names.1 j)

  -- A plan that is accepted keeps its edges; its tasks go with the definitions, in order, with their
  -- limits, and are `READY` exactly where they have no prerequisite; identifiers are distinct,
  -- limits positive, and each edge joins two different planned tasks; and the tasks can be ranked
  -- so that each stands above its prerequisites, so there is no cycle. The condition is that Go's
  -- `range` visits every key of a map once.
  pub new_planned_tasks-Accepted :
      {tasks : List Task} {kept : List TaskDependency} {events : List Event}
      → RangesOnce env
      → new_planned_tasks env run_id defs deps meta ≡ ok (tasks, kept, events)
      → Accepted run_id defs deps tasks kept events
  new_planned_tasks-Accepted {events} once h =
      let (ids, g, v, built, same) = new_planned_tasks-Passed h in
      subst₂ (λ ts ds. Accepted run_id defs deps ts ds events) built same
        (passed-Accepted once ids g v)
