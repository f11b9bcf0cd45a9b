-- ===== src/Workflow/Plan/Counting.antt =====
-- How often a text stands in a list, and edges that are not yet met.
use basic.Base.{
  ℕ, suc, ◌+◌, ◌≤◌, ◌≡◌, refl, String, Bool, true, false, not, ◌&&◌, List, [], ◌∷◌, ◌++◌, arith,
  str_eq, eq_iff, if◌then◌else◌, length, ltb,
}
use basic.Workflow.Plan.Graph.{TaskDependency, has}

unfoldable pub occ : List String → String → ℕ
occ [] j = 0
occ (x ∷ xs) j = (if str_eq x j then 1 else 0) + occ xs j

pub occ-append : (xs ys : List String) (j : String) → occ (xs ++ ys) j ≡ occ xs j + occ ys j
unfolding occ
occ-append [] ys j = omega arith
occ-append (x ∷ xs) ys j = omega (arith, occ-append xs ys j)

pub has-occ : (xs : List String) (j : String) → has xs j ≡ ltb 0 (occ xs j)
unfolding occ has
has-occ [] j = refl
has-occ (x ∷ xs) j = ground (arith, has-occ xs j)

without : List String → String → List String
without [] j = []
without (x ∷ xs) j = if str_eq x j then xs else x ∷ without xs j

occ-without :
    (xs : List String) (j k : String)
    → has xs j ≡ true
    → occ xs k ≡ (if str_eq j k then 1 else 0) + occ (without xs j) k
unfolding occ has without
occ-without [] j k h = ground arith
occ-without (x ∷ xs) j k h = ground (arith, occ-without xs j k, eq_iff x j, eq_iff j k, eq_iff x k)

length-without :
    (xs : List String) (j : String) → has xs j ≡ true → length xs ≡ suc (length (without xs j))
unfolding has without
length-without [] j h = ground arith
length-without (x ∷ xs) j h = ground (arith, length-without xs j)

-- A list is as long as its elements are many.
pub length-le_of_occ :
    (xs ys : List String) → ((j : String) → occ xs j ≤ occ ys j) → length xs ≤ length ys
unfolding occ
length-le_of_occ [] ys h = omega arith
length-le_of_occ (x ∷ xs) ys h =
    let p : has ys x ≡ true = ground (arith, has-occ ys x, h x, eq_iff x x) in
    let ih = length-le_of_occ xs (without ys x) (λ j. omega (arith, h j, occ-without ys x j p)) in
    omega (arith, ih, length-without ys x p)

-- With the lengths equal, the counts are equal too.
pub occ-eq_of_length :
    (xs ys : List String)
    → ((j : String) → occ xs j ≤ occ ys j)
    → length xs ≡ length ys
    → (j : String) → occ xs j ≡ occ ys j
unfolding occ
occ-eq_of_length [] [] h l j = refl
occ-eq_of_length [] (y ∷ ys) h l j = absurd (omega arith)
occ-eq_of_length (x ∷ xs) ys h l j =
    let p : has ys x ≡ true = ground (arith, has-occ ys x, h x, eq_iff x x) in
    let ih =
      occ-eq_of_length xs (without ys x) (λ k. omega (arith, h k, occ-without ys x k p))
        (omega (arith, length-without ys x p)) j in
    omega (arith, ih, occ-without ys x j p)

-- The edges of `j` whose prerequisite is not `done`.
unfoldable pub unmet : (String → Bool) → List TaskDependency → String → ℕ
unmet done [] j = 0
unmet done (e ∷ es) j =
    (if str_eq e.task_id j && not (done e.depends_on_id) then 1 else 0) + unmet done es j

-- The tasks that wait on `d`, in the order of the edges.
unfoldable pub dependents : List TaskDependency → String → List String
dependents [] d = []
dependents (e ∷ es) d =
    if str_eq e.depends_on_id d then e.task_id ∷ dependents es d else dependents es d

-- Finishing `d` meets the edges to `d` and no other.
pub unmet-cons :
    (p : List String) (d : String) (es : List TaskDependency) (j : String)
    → has p d ≡ false
    → unmet (has p) es j ≡ unmet (has (d ∷ p)) es j + occ (dependents es d) j
unfolding unmet dependents occ has
unmet-cons p d [] j h = omega arith
unmet-cons p d (e ∷ es) j h = ground (
  arith,
  unmet-cons p d es j h,
  eq_iff e.depends_on_id d,
  eq_iff d e.depends_on_id,
  eq_iff e.task_id j,
)
