-- ===== src/Workflow/Store/Sound/Save.antt =====
-- The insertion of a plan and the update of its run keep the invariant.
use basic.Base.{
  ◌≡◌, refl, sym, subst, ap, ◌∙◌, ℕ, String, true, false, List, [], ◌∷◌, ok, ok-injective, arith,
  inl, inr, ◌⊎◌, eq_iff, All-map,
}
use basic.Base.Table.{In}
use basic.Workflow.Types.{Env}
use basic.Workflow.Task.Model.{Task}
use basic.Workflow.Plan.Graph.{TaskDependency}
use basic.Workflow.Run.Model.{Run}
use basic.Workflow.Run.Command.{RunCommand, create_run}
use basic.Workflow.Run.Decide.{RunPersistenceDecision}
use basic.Workflow.Run.Inversion.{is_create}
use basic.Workflow.Run.Evidence.{is_executed}
use basic.Workflow.Store.Rows.{Columns, TaskRow, RunRow, updated_run_row, task_row}
use basic.Workflow.Store.Tables.{CommandRow, Tables, Store, Backend}
use basic.Workflow.Store.Records.{run_at, update_run, insert_tasks, insert_dependencies}
use basic.Workflow.Store.Gates.{is_cancelled_run}
use basic.Workflow.Store.Execute.{save_run}
use basic.Workflow.Store.Decisions.{needs_accepted, is_cancel, Plans}
use basic.Workflow.Store.Sound.{Sound, IsDone, IsOver, is_started}
use basic.Workflow.Store.Sound.Changes.{update_run-Sound}
use basic.Workflow.Store.Sound.Plans.{
  IsIdle, insert_tasks-Inserted, Waits, insert_dependencies-kept,
}
use basic.Workflow.Store.Steps.{update_run-eq-ok}

pub save_run-update :
    (s : Store) (b : Backend) (env : Env) (arrived : List CommandRow) (c : RunCommand) (next : Run)
    (expected : ℕ) (db : Tables)
    → is_create c ≡ false
    → save_run s b env arrived c next expected db ≡ update_run b.columns next expected db
unfolding save_run
save_run-update s b env arrived (create_run c) next expected db n = cc
save_run-update s b env arrived c next expected db n = refl

run_at-id :
    (col : Columns) (next : Run) (expected : ℕ) (r : RunRow)
    → run_at col next expected r ≡ true
    → r.run_id ≡ col.uuid next.id
run_at-id col next expected r t = ground (arith, eq_iff r.run_id (col.uuid next.id))

module _ (b : Backend) (next : Run) (expected : ℕ) (row : RunRow) where
  -- A saved run keeps the invariant: it is executed only with its tasks done, and cancelled only
  -- with its tasks over.
  pub update_run-kept :
      (db : Tables) {db' : Tables}
      → In row db.runs
      → row.run_id ≡ b.columns.uuid next.id
      → (is_executed next.state ≡ true → IsDone db.tasks row)
      → (is_cancelled_run next.state ≡ true → IsOver db.tasks row)
      → update_run b.columns next expected db ≡ ok (tt, db')
      → Sound db
      → Sound db'
  unfolding updated_run_row
  update_run-kept db i id done over h v =
      let (lifecycle, e) = update_run-eq-ok b.columns next expected db h in
      subst Sound (sym e) (
        update_run-Sound v (run_at b.columns next expected)
          (updated_run_row b.columns next lifecycle) (λ r. refl)
          (λ r j t e. subst (IsDone db.tasks) (the_row r j t) (done e))
          (λ r j t e. subst (IsOver db.tasks) (the_row r j t) (over e)))
    where
      the_row : (r : RunRow) → In r db.runs → run_at b.columns next expected r ≡ true → row ≡ r
      the_row r j t = v.unique_runs row r i j (id ∙ sym (run_at-id b.columns next expected r t))

-- What a command on an existing run may plan: nothing, or tasks of an idle run.
abbrev pub MayPlan : Columns → RunCommand → List RunRow → RunPersistenceDecision → Type 0
MayPlan col c runs d =
    ((needs_accepted c ≡ false)
      × (is_cancel c ≡ false)
      × IsIdle runs (col.uuid d.next.id)
      × Plans d.next.id d.tasks d.dependencies)
    ⊎ ((d.tasks ≡ []) × (d.dependencies ≡ []))

planned_edges :
    (col : Columns) (run_id : String) (ts : List Task) (tasks : List TaskRow)
    (ds : List TaskDependency)
    → ((t u : TaskRow) → In t tasks → In u tasks → t.task_id ≡ u.task_id → t ≡ u)
    → ((t : Task) → In t ts → In (task_row col t) tasks)
    → ((e : TaskDependency)
        → In e ds
        → (t : Task) × In t ts × (t.id ≡ e.task_id) × (is_started t.state ≡ false))
    → Waits col run_id tasks ds
unfolding task_row
planned_edges col run_id ts tasks [] unique added waits = tt
planned_edges col run_id ts tasks (d ∷ ds) unique added waits =
    let (t, i, id, w) = waits d (inl refl) in
    (
      λ u j dep.
          let same = unique u (task_row col t) j (added t i) (dep.1 ∙ ap col.uuid (sym id)) in
          ap (λ r. is_started r.state) same ∙ w,
      planned_edges col run_id ts tasks ds unique added (λ e k. waits e (inr k)),
    )

-- The insertion of what a command plans.
pub insert_plan-kept :
    (col : Columns) (c : RunCommand) (d : RunPersistenceDecision) (db : Tables) {db1 db2 : Tables}
    → MayPlan col c db.runs d
    → insert_tasks col d.tasks db ≡ ok (tt, db1)
    → insert_dependencies col d.next.id d.dependencies db1 ≡ ok (tt, db2)
    → Sound db
    → Sound db2
      × (db2.runs ≡ db.runs)
      × (((needs_accepted c ≡ false) × (is_cancel c ≡ false)) ⊎ (db2.tasks ≡ db.tasks))
unfolding insert_tasks insert_dependencies
insert_plan-kept col c d db {db1} (inl (n, k, idle, plans)) h1 h2 v =
    let ready =
      All-map (λ (t : Task). t.run_id ≡ d.next.id)
        (λ (t : Task). IsIdle db.runs (col.uuid t.run_id)) d.tasks
        (λ t e. subst (IsIdle db.runs) (ap col.uuid (sym e)) idle) plans.of_run in
    let inserted = insert_tasks-Inserted col d.tasks db h1 ready v in
    let waits =
      planned_edges col d.next.id d.tasks db1.tasks d.dependencies inserted.sound.unique_tasks
        inserted.added plans.waits in
    let (v2, runs, tasks) =
      insert_dependencies-kept col d.next.id d.dependencies db1 h2 waits inserted.sound in
    (v2, runs ∙ inserted.runs, inl (n, k))
insert_plan-kept col c d db {db1} {db2} (inr (no_tasks, no_deps)) h1 h2 v =
    let same1 = ap (λ p. p.1) (ok-injective (rw no_tasks at h1)) in
    let same2 = ap (λ p. p.1) (ok-injective (rw no_deps at h2)) in
    let same = same1 ∙ same2 in
    (subst Sound same v, ap (λ x. x.runs) (sym same), inr (ap (λ x. x.tasks) (sym same)))
