-- ===== src/Workflow/Store/Sound/Plans.antt =====
-- The insertion of planned tasks and dependencies keeps the invariant.
use basic.Base.{
  ◌≡◌, refl, sym, subst, ap, ◌∙◌, String, true, false, Option, none, some, List, [], ◌∷◌, ok,
  ok-injective, arith, inl, inr, All, Bool-cases, eq_iff,
}
use basic.Base.Table.{In, append-In_left, append-In_right, find_row, find_row-none, find_row-some}
use basic.Workflow.Task.Model.{Task}
use basic.Workflow.Plan.Graph.{TaskDependency}
use basic.Workflow.Run.Evidence.{is_executed}
use basic.Workflow.Store.Rows.{TaskRow, RunRow, Columns, task_row}
use basic.Workflow.Store.Tables.{Tables, DependencyRow}
use basic.Workflow.Store.Records.{
  exists, has_task_id, is_task, insert_task, insert_tasks, dependency_row, refuses_dependency,
  insert_dependency, insert_dependencies,
}
use basic.Workflow.Store.Gates.{is_cancelled_run}
use basic.Workflow.Store.Sound.{Sound, is_started, IsDependent}
use basic.Workflow.Store.Sound.Changes.{insert_task-Sound, insert_dependency-Sound}
use basic.Workflow.Store.Sound.Ready.{is_task-eq}
use basic.Workflow.Store.Steps.{tx->>-eq-ok}

exists-false : {A : Type 0} (o : Option A) → exists o ≡ false → o ≡ none
exists-false none h = refl
exists-false (some a) h = cc

exists-true : {A : Type 0} (o : Option A) → exists o ≡ true → (a : A) × (o ≡ some a)
exists-true none h = cc
exists-true (some a) h = (a, refl)

-- The run of that identifier has neither a candidate nor been cancelled.
abbrev pub IsIdle : List RunRow → String → Type 0
IsIdle runs id =
    (r : RunRow)
    → In r runs
    → id ≡ r.run_id
    → (is_executed r.state ≡ false) × (is_cancelled_run r.state ≡ false)

-- Runs and dependencies as before, the old tasks still there, and a sound result.
pub record Inserted (ts : List Task) (col : Columns) (db db' : Tables) : Type 0 where
  pub sound : Sound db'
  pub runs : db'.runs ≡ db.runs
  pub kept : (t : TaskRow) → In t db.tasks → In t db'.tasks
  pub added : (t : Task) → In t ts → In (task_row col t) db'.tasks

module _ (col : Columns) where
  insert_task-Inserted :
      (t : Task) (db : Tables) {db' : Tables}
      → insert_task col t db ≡ ok (tt, db')
      → IsIdle db.runs (col.uuid t.run_id)
      → Sound db
      → Inserted (t ∷ []) col db db'
  unfolding insert_task task_row
  insert_task-Inserted t db h idle v =
      let found = find_row (has_task_id (col.uuid t.id)) db.tasks in
      let row = task_row col t in
      elim (Bool-cases (exists found)) [
        | inl e ↦ absurd (cc (rw (e, insert_task) at h))
        | inr e ↦
            let absent = exists-false found e in
            subst (Inserted (t ∷ []) col db)
              (ap (λ p. p.1) (ok-injective (rw (e, insert_task) at h)))
              (record {
                sound =
                    insert_task-Sound v row
                      (λ u i same. cc (
                        find_row-none (has_task_id (col.uuid t.id)) db.tasks u absent i,
                        (eq_iff u.task_id (col.uuid t.id)).1 same,
                      ))
                      idle;
                runs = refl;
                kept = λ u i. append-In_left u db.tasks (row ∷ []) i;
                added = λ u i. elim i [
                  | inl same ↦
                      append-In_right (task_row col u) db.tasks (row ∷ [])
                        (inl (ap (task_row col) same))
                  | inr i ↦ absurd i
                ];
              })
      ]

  pub insert_tasks-Inserted :
      (ts : List Task) (db : Tables) {db' : Tables}
      → insert_tasks col ts db ≡ ok (tt, db')
      → All (λ (t : Task). IsIdle db.runs (col.uuid t.run_id)) ts
      → Sound db
      → Inserted ts col db db'
  unfolding insert_tasks
  insert_tasks-Inserted [] db h idle v =
      subst (Inserted [] col db) (ap (λ p. p.1) (ok-injective h))
        (record { sound = v; runs = refl; kept = λ t i. i; added = λ t i. absurd i })
  insert_tasks-Inserted (t ∷ ts) db h idle v =
      let (db1, h1, k1) = tx->>-eq-ok (insert_task col t) _ h in
      let one = insert_task-Inserted t db h1 idle.0 v in
      let rest =
        insert_tasks-Inserted ts db1 k1
          (subst (λ runs. All (λ (t : Task). IsIdle runs (col.uuid t.run_id)) ts) (sym one.runs)
            idle.1)
          one.sound in
      record {
        sound = rest.sound;
        runs = rest.runs ∙ one.runs;
        kept = λ u i. rest.kept u (one.kept u i);
        added = λ u i. elim i [
          | inl same ↦ rest.kept (task_row col u) (one.added u (inl same))
          | inr later ↦ rest.added u later
        ];
      }

-- No task that a dependency names is started.
abbrev pub Waits : Columns → String → List TaskRow → List TaskDependency → Type 0
Waits col run_id tasks [] = Unit
Waits col run_id tasks (d ∷ ds) =
    ((t : TaskRow)
      → In t tasks
      → IsDependent (dependency_row col run_id d) t
      → is_started t.state ≡ false)
    × Waits col run_id tasks ds

refuses_dependency-false :
    (db : Tables) (d : DependencyRow)
    → refuses_dependency db d ≡ false
    → (exists (find_row (is_task d.run_id d.task_id) db.tasks) ≡ true)
      × (exists (find_row (is_task d.run_id d.depends_on_task_id) db.tasks) ≡ true)
unfolding refuses_dependency
refuses_dependency-false db d h = ground arith

insert_dependency-kept :
    (d : DependencyRow) (db : Tables) {db' : Tables}
    → insert_dependency d db ≡ ok (tt, db')
    → ((t : TaskRow) → In t db.tasks → IsDependent d t → is_started t.state ≡ false)
    → Sound db
    → Sound db' × (db'.runs ≡ db.runs) × (db'.tasks ≡ db.tasks)
unfolding insert_dependency
insert_dependency-kept d db h waits v = elim (Bool-cases (refuses_dependency db d)) [
  | inl e ↦ absurd (cc (rw (e, insert_dependency) at h))
  | inr e ↦
      let (left, right) = refuses_dependency-false db d e in
      let (t, ft) = exists-true (find_row (is_task d.run_id d.task_id) db.tasks) left in
      let (p, fp) = exists-true (find_row (is_task d.run_id d.depends_on_task_id) db.tasks) right in
      let (it, et) = find_row-some (is_task d.run_id d.task_id) db.tasks ft in
      let (ip, ep) = find_row-some (is_task d.run_id d.depends_on_task_id) db.tasks fp in
      subst (λ x. Sound x × (x.runs ≡ db.runs) × (x.tasks ≡ db.tasks))
        (ap (λ p. p.1) (ok-injective (rw (e, insert_dependency) at h)))
        (
          insert_dependency-Sound v d (t, it, is_task-eq d.run_id d.task_id t et)
              (p, ip, is_task-eq d.run_id d.depends_on_task_id p ep) waits,
          refl,
          refl,
        )
]

pub insert_dependencies-kept :
    (col : Columns) (run_id : String) (ds : List TaskDependency) (db : Tables) {db' : Tables}
    → insert_dependencies col run_id ds db ≡ ok (tt, db')
    → Waits col run_id db.tasks ds
    → Sound db
    → Sound db' × (db'.runs ≡ db.runs) × (db'.tasks ≡ db.tasks)
unfolding insert_dependencies
insert_dependencies-kept col run_id [] db h waits v =
    subst (λ x. Sound x × (x.runs ≡ db.runs) × (x.tasks ≡ db.tasks))
      (ap (λ p. p.1) (ok-injective h)) (v, refl, refl)
insert_dependencies-kept col run_id (d ∷ ds) db h waits v =
    let (db1, h1, k1) = tx->>-eq-ok (insert_dependency (dependency_row col run_id d)) _ h in
    let (v1, runs, tasks) = insert_dependency-kept (dependency_row col run_id d) db h1 waits.0 v in
    let (v2, runs', tasks') =
      insert_dependencies-kept col run_id ds db1 k1
        (subst (λ x. Waits col run_id x ds) (sym tasks) waits.1) v1 in
    (v2, runs' ∙ runs, tasks' ∙ tasks)
