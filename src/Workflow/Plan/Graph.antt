-- ===== src/Workflow/Plan/Graph.antt =====
-- The checks of a task graph and the maps that the planner builds: `plannedTaskIDs` and
-- `plannedTaskGraph` of go/internal/workflow/task.go. A Go map with a zero value for what is
-- missing is a function; a set of texts is the list of its members.
pub mod Maps
use Prim.Native.String.{◌++◌ as concat}
use basic.Base.{
  ℕ, ◌+◌, String, Bool, true, false, not, ◌||◌, List, [], ◌∷◌, ◌++◌, Result, ok, ◌>>◌, fail_if,
  ◌==◌, str_eq, if◌then◌else◌,
}
use basic.Workflow.Types.{Err, invalid, Env, validate_id}

pub record TaskDefinition : Type 0 where
  pub id : String
  pub max_attempts : ℕ  -- uint32

pub record TaskDependency : Type 0 where
  pub task_id : String
  pub depends_on_id : String

-- `_, exists := m[k]`
unfoldable pub has : List String → String → Bool
has [] j = false
has (x ∷ xs) j = str_eq x j || has xs j

-- The loop of `plannedTaskIDs`, with the identifiers seen so far, in reverse.
pub collect_ids : Env → List TaskDefinition → List String → Result Err (List String)
unfolding validate_id
collect_ids env [] seen = ok seen
collect_ids env (d ∷ ds) seen = do
  validate_id env d.id
  fail_if (d.max_attempts == 0) invalid
  fail_if (has seen d.id) invalid
  collect_ids env ds (d.id ∷ seen)

abbrev pub is_empty {ℓ} : {A : Type ℓ} → List A → Bool
is_empty [] = true
is_empty (x ∷ xs) = false

unfoldable pub planned_task_ids : Env → List TaskDefinition → Result Err (List String)
unfolding collect_ids
planned_task_ids env definitions = do
  fail_if (is_empty definitions) invalid
  collect_ids env definitions []

pub record Graph : Type 0 where
  pub incoming : String → ℕ
  pub adjacency : String → List String

-- `m[k] = v`
unfoldable pub assign {ℓ} : {A : Type ℓ} → (String → A) → String → A → String → A
assign m k v j = if str_eq k j then v else m j

abbrev pub edge_key : TaskDependency → String
edge_key d = concat d.task_id (concat ":" d.depends_on_id)

-- The body of the loop of `plannedTaskGraph` after its checks.
unfoldable pub add_edge : Graph → TaskDependency → Graph
unfolding assign
add_edge g d = record {
  incoming = assign g.incoming d.task_id (g.incoming d.task_id + 1);
  adjacency = assign g.adjacency d.depends_on_id (g.adjacency d.depends_on_id ++ d.task_id ∷ []);
}

pub collect_edges : List String → List TaskDependency → List String → Graph → Result Err Graph
unfolding has
collect_edges ids [] edges g = ok g
collect_edges ids (d ∷ ds) edges g = do
  fail_if (not (has ids d.task_id)) invalid
  fail_if (not (has ids d.depends_on_id)) invalid
  fail_if (str_eq d.task_id d.depends_on_id) invalid
  fail_if (has edges (edge_key d)) invalid
  collect_edges ids ds (edge_key d ∷ edges) (add_edge g d)

abbrev pub empty_graph : Graph
empty_graph = record { incoming = λ j. 0; adjacency = λ j. [] }

unfoldable pub planned_task_graph : List String → List TaskDependency → Result Err Graph
unfolding collect_edges
planned_task_graph ids dependencies = collect_edges ids dependencies [] empty_graph
