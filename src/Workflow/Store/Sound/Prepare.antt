-- ===== src/Workflow/Store/Sound/Prepare.antt =====
-- What precedes the changes of a run's command: the run is loaded, the gate passed, the tasks of a
-- cancelled run are cancelled, and the plan is known to fit.
use basic.Base.{
  ◌≡◌, refl, sym, subst, ap, ◌∙◌, String, true, false, some, List, ok, err, ok-injective, inl, inr,
  Option-cases,
}
use basic.Base.Table.{In, find_row}
use basic.Workflow.Types.{Env, Event}
use basic.Workflow.Plan.Accepted.{RangesOnce}
use basic.Workflow.Run.Model.{Run}
use basic.Workflow.Run.Command.{RunCommand, create_run, cancel_run, command_run_id}
use basic.Workflow.Run.Decide.{RunPersistenceDecision, decide_run_command}
use basic.Workflow.Run.Inversion.{is_create}
use basic.Workflow.Run.Evidence.{is_executed}
use basic.Workflow.Store.Rows.{RunRow, Columns, run_row}
use basic.Workflow.Store.Tables.{StoreErr, CommandRow, Tables, Store, Backend}
use basic.Workflow.Store.Records.{is_run, load_run}
use basic.Workflow.Store.Gates.{is_cancelled_run, validate_run_task_gate}
use basic.Workflow.Store.Execute.{load_absent, load_run_for_command, cancel_events}
use basic.Workflow.Store.Decisions.{is_cancel, Plans, decide-Plans}
use basic.Workflow.Store.Sound.{Sound, IsOver}
use basic.Workflow.Store.Sound.Cancel.{ReturnsRows, cancel_run_tasks-Cancelled}
use basic.Workflow.Store.Sound.Save.{MayPlan}
use basic.Workflow.Store.Sound.Done.{validate_run_task_gate-eq-ok}
use basic.Workflow.Run.Command.{CreateRun}
use basic.Base.{Result}
use basic.Workflow.Store.Execute.{refuse_existing, zero_run}
use basic.Workflow.Store.Rows.{read_run}

refuse_existing-err :
    (r : Result StoreErr Run) {out : Run × Tables} → ¬ (refuse_existing r ≡ ok out)
refuse_existing-err (ok run) h = cc
refuse_existing-err (err e) h = cc

pub load_absent-eq-ok :
    (col : Columns) (env : Env) (id : String) (db : Tables) {r : Run} {db' : Tables}
    → load_absent col env id db ≡ ok (r, db')
    → db' ≡ db
unfolding load_absent
load_absent-eq-ok col env id db h = elim (Option-cases (find_row (is_run (col.uuid id)) db.runs)) [
  | inl e ↦ sym (ap (λ p. p.1) (ok-injective (rw (e, load_absent) at h)))
  | inr (row, e) ↦
      absurd (refuse_existing-err (read_run col env (some row)) (rw (e, load_absent) at h))
]

pub load_run_for_command-create :
    (col : Columns) (env : Env) (c : CreateRun) (db : Tables) {r : Run} {db' : Tables}
    → load_run_for_command col env (create_run c) db ≡ ok (r, db')
    → db' ≡ db
unfolding load_run_for_command
load_run_for_command-create col env c db h = load_absent-eq-ok col env c.id db h

pub load_run_for_command-update :
    (col : Columns) (env : Env) (c : RunCommand) (db : Tables)
    → is_create c ≡ false
    → load_run_for_command col env c db ≡ load_run col env (command_run_id c) db
unfolding load_run_for_command
load_run_for_command-update col env (create_run c) db n = cc
load_run_for_command-update col env c db n = refl

pub gate-same :
    (col : Columns) (c : RunCommand) (db : Tables) {db' : Tables}
    → validate_run_task_gate col c db ≡ ok (tt, db')
    → db' ≡ db
unfolding run_row
gate-same col c db h =
    (validate_run_task_gate-eq-ok col c (run_row col (record zero_run { id = command_run_id c }) "")
      db refl h).1

module _ (s : Store) (b : Backend) (env : Env) (arrived : List CommandRow) where
  -- The cancellation leaves the runs as they are, and the tasks of a cancelled run over.
  pub record Prepared (c : RunCommand) (row : RunRow) (db db' : Tables) : Type 0 where
    pub sound : Sound db'
    pub runs : db'.runs ≡ db.runs
    pub unchanged : is_cancel c ≡ false → db'.tasks ≡ db.tasks
    pub over : is_cancel c ≡ true → IsOver db'.tasks row

  pub cancel_events-Prepared :
      (c : RunCommand) (run_id : String) (row : RunRow) (db : Tables) {es : List Event}
      {db' : Tables}
      → ReturnsRows b
      → row.run_id ≡ b.columns.uuid run_id
      → cancel_events s b env arrived c run_id db ≡ ok (es, db')
      → Sound db
      → Prepared c row db db'
  unfolding cancel_events
  cancel_events-Prepared (cancel_run c) run_id row db returns id h v =
      let done = cancel_run_tasks-Cancelled env b c.meta run_id c.reason db returns h v in
      record {
        sound = done.sound;
        runs = done.runs;
        unchanged = λ n. cc;
        over = λ y t i r. done.over t i (r ∙ id);
      }
  cancel_events-Prepared c run_id row db returns id h v =
      let same = sym (ap (λ p. p.1) (ok-injective h)) in
      record {
        sound = subst Sound (sym same) v;
        runs = ap (λ x. x.runs) same;
        unchanged = λ n. ap (λ x. x.tasks) same;
        over = λ y. cc;
      }

  pub may_plan :
      (c : RunCommand) (r : Run) (row : RunRow) (runs : List RunRow) (d : RunPersistenceDecision)
      → RangesOnce env
      → ((q : RunRow) → In q runs → row.run_id ≡ q.run_id → row ≡ q)
      → row.run_id ≡ b.columns.uuid d.next.id
      → row.state ≡ r.state
      → d.next.id ≡ r.id
      → decide_run_command env r c ≡ ok d
      → MayPlan b.columns c runs d
  may_plan c r row runs d once unique id state next h = elim (decide-Plans env r c once h) [
    | inl (n, k, review, plans) ↦ inl (
      n,
      k,
      λ q i e.
          let same = unique q i (id ∙ e) in
          let at_review = ap (λ x. x.state) (sym same) ∙ state ∙ review in
          (ap is_executed at_review, ap is_cancelled_run at_review),
      subst (λ x. Plans x d.tasks d.dependencies) (sym next) plans,
    )
    | inr e ↦ inr e
  ]
