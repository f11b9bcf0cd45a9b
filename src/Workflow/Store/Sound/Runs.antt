-- ===== src/Workflow/Store/Sound/Runs.antt =====
-- The changes that a run's command makes keep the invariant of the tables.
use basic.Base.{◌≡◌, sym, subst, ap, ◌∙◌, String, true, false, List, [], ok, inl, inr, ◌⊎◌, eq_iff}
use basic.Base.Table.{In, find_row-none}
use basic.Workflow.Types.{Env, RunState}
use basic.Workflow.Run.Command.{RunCommand, create_run, envelope, command_run_id}
use basic.Workflow.Run.Decide.{RunPersistenceDecision}
use basic.Workflow.Run.Inversion.{is_create}
use basic.Workflow.Run.Evidence.{is_executed}
use basic.Workflow.Store.Rows.{RunRow, run_row}
use basic.Workflow.Store.Tables.{
  CommandRow, Tables, Store, Backend, fault, before_events, before_snapshot,
}
use basic.Workflow.Store.Commands.{reserve, reserved_row}
use basic.Workflow.Store.Records.{is_run, insert_events, insert_tasks, insert_dependencies}
use basic.Workflow.Store.Gates.{is_cancelled_run}
use basic.Workflow.Store.Execute.{save_run, persist_run_transition}
use basic.Workflow.Store.Decisions.{needs_accepted, is_cancel}
use basic.Workflow.Store.Sound.{Sound, IsDone, IsOver}
use basic.Workflow.Store.Sound.Changes.{insert_run-Sound}
use basic.Workflow.Store.Steps.{
  tx->>-eq-ok, SameCore-Sound, SameCore-trans, same_core, reserved_core, fault-eq-ok, reserve-eq-ok,
  insert_run-eq-ok, insert_events-SameCore,
}
use basic.Workflow.Store.Sound.Save.{save_run-update, update_run-kept, MayPlan, insert_plan-kept}
use basic.Workflow.Run.Command.{CreateRun}

module _ (s : Store) (b : Backend) (env : Env) (arrived : List CommandRow) where
  -- What persisting a decision has done, up to the snapshot of the run.
  record Persisted (c : RunCommand) (d : RunPersistenceDecision) (db db' : Tables) : Type 0 where
    tables : Tables
    sound : Sound tables
    runs : tables.runs ≡ db.runs
    tasks : ((needs_accepted c ≡ false) × (is_cancel c ≡ false)) ⊎ (tables.tasks ≡ db.tasks)
    saved : save_run s b env arrived c d.next d.current.revision tables ≡ ok (tt, db')

  persist_run_transition-Persisted :
      (c : RunCommand) (digest : String) (d : RunPersistenceDecision) (db : Tables) {db' : Tables}
      → MayPlan b.columns c db.runs d
      → persist_run_transition s b env arrived c digest d db ≡ ok (tt, db')
      → Sound db
      → Persisted c d db db'
  unfolding persist_run_transition
  persist_run_transition-Persisted c digest d db may h v =
      let reserved = reserved_row b.columns "RUN" (command_run_id c) digest (envelope c) in
      let (db1, h1, k1) = tx->>-eq-ok (reserve arrived reserved) _ h in
      let (db2, h2, k2) = tx->>-eq-ok (fault s before_events) _ k1 in
      let (db3, h3, k3) =
        tx->>-eq-ok (insert_events b.columns (envelope c).command_id d.events) _ k2 in
      let (db4, h4, k4) = tx->>-eq-ok (insert_tasks b.columns d.tasks) _ k3 in
      let (db5, h5, k5) =
        tx->>-eq-ok (insert_dependencies b.columns d.next.id d.dependencies) _ k4 in
      let (db6, h6, k6) = tx->>-eq-ok (fault s before_snapshot) _ k5 in
      let core = SameCore-trans (reserved_core {db = db} (reserve-eq-ok arrived reserved db h1).1) (
        SameCore-trans (same_core (fault-eq-ok s before_events h2))
          (insert_events-SameCore b.columns (envelope c).command_id d.events h3)) in
      let (v5, runs, tasks) =
        insert_plan-kept b.columns c d db3
          (subst (λ x. MayPlan b.columns c x d) (sym core.runs) may) h4 h5
          (SameCore-Sound core v) in
      let same6 = fault-eq-ok s before_snapshot h6 in
      record {
        tables = db6;
        sound = subst Sound (sym same6) v5;
        runs = ap (λ x. x.runs) same6 ∙ runs ∙ core.runs;
        tasks = elim tasks [
          | inl p ↦ inl p
          | inr e ↦ inr (ap (λ x. x.tasks) same6 ∙ e ∙ core.tasks)
        ];
        saved = k6;
      }

  -- A created run.
  pub persist_create-Sound :
      (c : CreateRun) (digest : String) (d : RunPersistenceDecision) (db : Tables) {db' : Tables}
      → d.next.state ≡ RunState.draft
      → (d.tasks ≡ [])
      → (d.dependencies ≡ [])
      → persist_run_transition s b env arrived (create_run c) digest d db ≡ ok (tt, db')
      → Sound db
      → Sound db'
  unfolding save_run run_row
  persist_create-Sound c digest d db {db'} draft tasks deps h v =
      let p = persist_run_transition-Persisted (create_run c) digest d db (inr (tasks, deps)) h v in
      let (absent, lifecycle, e) = insert_run-eq-ok b.columns d.next p.tables p.saved in
      subst Sound (sym e) (
        insert_run-Sound p.sound (run_row b.columns d.next lifecycle)
          (λ q i same. cc (
            find_row-none (is_run (b.columns.uuid d.next.id)) p.tables.runs q absent i,
            (eq_iff q.run_id (b.columns.uuid d.next.id)).1 same,
          ))
          (ap is_executed draft) (ap is_cancelled_run draft))

  -- A command on the run of a row, which the gate and the cancellation have prepared.
  pub persist_update-Sound :
      (c : RunCommand) (digest : String) (d : RunPersistenceDecision) (row : RunRow) (db : Tables)
      {db' : Tables}
      → is_create c ≡ false
      → In row db.runs
      → row.run_id ≡ b.columns.uuid d.next.id
      → MayPlan b.columns c db.runs d
      → (is_executed d.next.state ≡ true → (needs_accepted c ≡ true) × IsDone db.tasks row)
      → (is_cancelled_run d.next.state ≡ true → (is_cancel c ≡ true) × IsOver db.tasks row)
      → persist_run_transition s b env arrived c digest d db ≡ ok (tt, db')
      → Sound db
      → Sound db'
  persist_update-Sound c digest d row db n i id may done over h v =
      let p = persist_run_transition-Persisted c digest d db may h v in
      update_run-kept b d.next d.current.revision row p.tables (subst (In row) (sym p.runs) i) id
        (λ e. elim p.tasks [
          | inl (unneeded, _) ↦ absurd (cc (unneeded, (done e).0))
          | inr same ↦ subst (λ x. IsDone x row) (sym same) (done e).1
        ])
        (λ e. elim p.tasks [
          | inl (_, not_cancel) ↦ absurd (cc (not_cancel, (over e).0))
          | inr same ↦ subst (λ x. IsOver x row) (sym same) (over e).1
        ])
        (sym (save_run-update s b env arrived c d.next d.current.revision p.tables n) ∙ p.saved)
        p.sound
