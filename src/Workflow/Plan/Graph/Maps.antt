-- ===== src/Workflow/Plan/Graph/Maps.antt =====
-- What the maps of an accepted graph hold.
use mathlib.Core.List.{append-nil, append_assoc}
use basic.Base.{
  Bool-cases, inl, inr, map, ok-injective, ◌+◌, ◌≤◌, ◌<◌, ◌≡◌, ◌≢◌, ◌∙◌, sym, ap, String, true,
  false, List, [], ◌∷◌, ◌++◌, ok, arith, str_eq, eq_iff, if◌then◌else◌, All,
}
use basic.Workflow.Types.{Env}
use basic.Workflow.Plan.Graph.{
  TaskDefinition, TaskDependency, Graph, has, assign, edge_key, add_edge, collect_edges,
  collect_ids,
}
use basic.Workflow.Plan.Counting.{occ, has-occ, unmet, dependents}

-- An edge that passed the checks, and what it passed them against.
abbrev pub Checked : List String → TaskDependency → Type 0
Checked ids d =
    (has ids d.task_id ≡ true) × (has ids d.depends_on_id ≡ true) × (d.task_id ≢ d.depends_on_id)

collect_edges-cons :
    (ids : List String) (d : TaskDependency) (ds : List TaskDependency) (edges : List String)
    (g : Graph) {g' : Graph}
    → collect_edges ids (d ∷ ds) edges g ≡ ok g'
    → Checked ids d
      × (has edges (edge_key d) ≡ false)
      × (collect_edges ids ds (edge_key d ∷ edges) (add_edge g d) ≡ ok g')
unfolding collect_edges
collect_edges-cons ids d ds edges g h = (
  (ground arith, ground arith, ground (arith, eq_iff d.task_id d.depends_on_id)),
  ground arith,
  ground arith,
)

incoming-add_edge :
    (g : Graph) (d : TaskDependency) (j : String)
    → (add_edge g d).incoming j ≡ g.incoming j + (if str_eq d.task_id j then 1 else 0)
unfolding add_edge
incoming-add_edge g d j = ground (arith, eq_iff d.task_id j)

adjacency-add_edge :
    (g : Graph) (d : TaskDependency) (j : String) (rest : List String)
    → (add_edge g d).adjacency j ++ rest
      ≡ g.adjacency j ++ (if str_eq d.depends_on_id j then d.task_id ∷ rest else rest)
unfolding add_edge
adjacency-add_edge g d j rest = elim (Bool-cases (str_eq d.depends_on_id j)) [
  | inl y ↦ let e = (eq_iff d.depends_on_id j).0 y in rw (y, assign) (rw (e, append_assoc))
  | inr n ↦ rw (n, assign)
]

-- The maps at the end are those at the start, with each edge counted and listed.
pub collect_edges_lem :
    (ids : List String) (ds : List TaskDependency) (edges : List String) (g : Graph) {g' : Graph}
    → collect_edges ids ds edges g ≡ ok g'
    → (j : String)
    → (g'.incoming j ≡ g.incoming j + unmet (has []) ds j)
      × (g'.adjacency j ≡ g.adjacency j ++ dependents ds j)
unfolding unmet dependents collect_edges
collect_edges_lem ids [] edges g h j =
    let e = ok-injective h in
    (
      omega (arith, ap (λ (x : Graph). x.incoming j) e),
      ap (λ (x : Graph). x.adjacency j) (sym e) ∙ sym (append-nil (g.adjacency j)),
    )
collect_edges_lem ids (d ∷ ds) edges g h j =
    let rest = (collect_edges-cons ids d ds edges g h).2 in
    let ih = collect_edges_lem ids ds (edge_key d ∷ edges) (add_edge g d) rest j in
    (
      ground (arith, ih.0, eq_iff d.task_id j, incoming-add_edge g d j),
      ih.1 ∙ adjacency-add_edge g d j (dependents ds j),
    )

pub collect_edges-Checked :
    (ids : List String) (ds : List TaskDependency) (edges : List String) (g : Graph) {g' : Graph}
    → collect_edges ids ds edges g ≡ ok g'
    → All (Checked ids) ds
collect_edges-Checked ids [] edges g h = tt
collect_edges-Checked ids (d ∷ ds) edges g h =
    let (c, _, rest) = collect_edges-cons ids d ds edges g h in
    (c, collect_edges-Checked ids ds (edge_key d ∷ edges) (add_edge g d) rest)

collect_ids-cons :
    (env : Env) (d : TaskDefinition) (ds : List TaskDefinition) (seen : List String)
    {ids : List String}
    → collect_ids env (d ∷ ds) seen ≡ ok ids
    → (has seen d.id ≡ false)
      × ((env.parses_uuid d.id ≡ true) × (0 < d.max_attempts))
      × (collect_ids env ds (d.id ∷ seen) ≡ ok ids)
unfolding collect_ids
collect_ids-cons env d ds seen h = (ground arith, (ground arith, ground arith), ground arith)

-- The identifiers are those of the definitions, each once, with an attempt to spend.
pub collect_ids_lem :
    (env : Env) (ds : List TaskDefinition) (seen : List String) {ids : List String}
    → collect_ids env ds seen ≡ ok ids
    → ((j : String) → occ seen j ≤ 1)
    → ((j : String) → occ ids j ≤ 1)
      × ((j : String) → occ ids j ≡ occ seen j + occ (map (λ d. d.id) ds) j)
      × All (λ d. (env.parses_uuid d.id ≡ true) × (0 < d.max_attempts)) ds
unfolding collect_ids occ
collect_ids_lem env [] seen h o =
    let e = ok-injective h in (λ j. rw e at (o j), λ j. omega (arith, ap (λ x. occ x j) e), tt)
collect_ids_lem env (d ∷ ds) seen h o =
    let (fresh, good, rest) = collect_ids-cons env d ds seen h in
    let ih =
      collect_ids_lem env ds (d.id ∷ seen) rest
        (λ j. ground (arith, o j, has-occ seen d.id, fresh, eq_iff d.id j)) in
    (ih.0, λ j. omega (arith, ih.1 j), (good, ih.2))
