-- ===== src/Workflow/Store/Sound/Tasks.antt =====
-- The execution of a task's command keeps the invariant of the tables.
use basic.Base.{
  ◌≡◌, refl, sym, subst, ap, ◌∙◌, String, true, false, List, ok, ok-injective, arith, inl, inr,
  Bool-cases, Option-cases, &&-true,
}
use basic.Base.Table.{In, find_row-some, update_rows}
use basic.Workflow.Types.{Env, Event, is_terminal_task}
use basic.Workflow.Task.Model.{Task}
use basic.Workflow.Task.States.{is_accepted}
use basic.Workflow.Task.Command.{
  TaskCommand, lease_task, envelope as task_envelope, command_task_id,
  command_run_id as task_run_id,
}
use basic.Workflow.Task.Checks.{TaskTransition, finish_task_transition, validate_human_review}
use basic.Workflow.Task.Apply.{apply_command, apply}
use basic.Workflow.Task.Inversion.{apply_cases}
use basic.Workflow.Task.Effect.{apply-Effect}
use basic.Workflow.Store.Rows.{KeepsSpelling, TaskRow, updated_task_row}
use basic.Workflow.Store.Tables.{
  CommandRow, CommandResult, Tables, Store, Backend, lift, fault, before_events, before_snapshot,
  before_commit,
}
use basic.Workflow.Store.Commands.{reserve, reserved_row, record_result, load_command_result}
use basic.Workflow.Store.Records.{is_task, task_at, load_task, update_task, insert_events}
use basic.Workflow.Store.Dependents.{make_dependents_ready}
use basic.Workflow.Store.Gates.{validate_task_run_gate}
use basic.Workflow.Store.Execute.{
  persist_task_transition, ready_events, fresh_task, task_result, execute_task_transaction,
}
use basic.Workflow.Store.Sound.{Sound, update_tasks-Sound, is_started}
use basic.Workflow.Store.Steps.{
  record_result-eq-ok, load_command_result-eq-ok, validate_task_run_gate-eq-ok, tx->>=-eq-ok,
  tx->>-eq-ok, SameCore-Sound, SameCore-trans, same_core, reserved_core, fault-eq-ok, lift-eq-ok,
  reserve-eq-ok, load_task-eq-ok, update_task-eq-ok, insert_events-SameCore,
}
use basic.Workflow.Store.Sound.Ready.{accepted_terminal, is_task-eq, ready_candidates-Sound}

module _ (env : Env) where
  apply_command-started :
      (t : Task) (c : TaskCommand) {tr : TaskTransition}
      → is_terminal_task t.state ≡ false
      → apply_command env t c ≡ ok tr
      → is_started tr.next.state ≡ true
      → is_started t.state ≡ true
  unfolding apply_command validate_human_review is_terminal_task
  apply_command-started t (lease_task c) l h s = ground arith
  apply_command-started t c l h s = ground arith

  -- No command starts a task that waits for its prerequisites.
  pub apply-started :
      (t : Task) (c : TaskCommand) {t' : Task} {es : List Event}
      → apply env t c ≡ ok (t', es)
      → is_started t'.state ≡ true
      → is_started t.state ≡ true
  unfolding finish_task_transition
  apply-started t c h =
      apply_cases env t c (λ p. is_started p.0.state ≡ true → is_started t.state ≡ true) h
        λ tr a e. apply_command-started t c a.live e

  pub apply-live :
      (t : Task) (c : TaskCommand) {t' : Task} {es : List Event}
      → apply env t c ≡ ok (t', es)
      → is_terminal_task t.state ≡ false
  apply-live t c h = apply_cases env t c (λ p. is_terminal_task t.state ≡ false) h λ tr a e. a.live

module _ (s : Store) (b : Backend) (env : Env) (arrived : List CommandRow) where
  ready_events-Sound :
      (c : TaskCommand) (next : Task) (db : Tables) {es : List Event} {db' : Tables}
      → ready_events s b env arrived c next db ≡ ok (es, db')
      → Sound db
      → Sound db'
  unfolding ready_events make_dependents_ready
  ready_events-Sound c next db h v = elim (Bool-cases (is_accepted next.state)) [
    | inl e ↦
        let (es, db1, h1, k1) =
          tx->>=-eq-ok (make_dependents_ready env b (task_envelope c) next) _
            (rw (e, ready_events) at h) in
        let (db2, h2, k2) =
          tx->>-eq-ok (insert_events b.columns (task_envelope c).command_id es) _ k1 in
        let ready = ready_candidates-Sound env b (task_envelope c) next _ db h1 v in
        subst Sound (ap (λ p. p.1) (ok-injective k2)) (
          SameCore-Sound (insert_events-SameCore b.columns (task_envelope c).command_id es h2)
            ready)
    | inr e ↦ subst Sound (ap (λ p. p.1) (ok-injective (rw (e, ready_events) at h))) v
  ]

  -- The update of a task that a command has changed.
  update_task-Sound :
      (c : TaskCommand) (current next : Task) {events : List Event} (row : TaskRow) (db : Tables)
      → apply env current c ≡ ok (next, events)
      → In row db.tasks
      → row.task_id ≡ b.columns.uuid current.id
      → row.state ≡ current.state
      → Sound db
      → Sound (record db {
        tasks =
            update_rows
              (task_at b.columns next current.revision)
              (updated_task_row b.columns next)
              db.tasks;
      })
  unfolding updated_task_row
  update_task-Sound c current next row db h i id state v =
      update_tasks-Sound v (task_at b.columns next current.revision)
        (updated_task_row b.columns next)
        (record {
          keeps_id = λ t. refl;
          keeps_run = λ t. refl;
          keeps_accepted =
              λ t j p a. absurd (cc (live, accepted_terminal t.state a, the_state t j p));
          keeps_terminal = λ t j p a. absurd (cc (live, a, the_state t j p));
          starts = λ t j p a. inl (cc (apply-started env current c h a, the_state t j p));
        })
    where
      live : is_terminal_task current.state ≡ false
      live = apply-live env current c h

      the_state :
          (t : TaskRow)
          → In t db.tasks
          → task_at b.columns next current.revision t ≡ true
          → t.state ≡ current.state
      the_state t j p =
          let (r, n) =
            is_task-eq (b.columns.uuid next.run_id) (b.columns.uuid next.id) t
              (&&-true (is_task (b.columns.uuid next.run_id) (b.columns.uuid next.id) t) _ p).0 in
          let same =
            v.unique_tasks t row j i
              (n ∙ ap b.columns.uuid (apply-Effect env current c h).id ∙ sym id) in
          ap (λ x. x.state) same ∙ state

  persist_task_transition-Sound :
      (c : TaskCommand) (digest : String) (current next : Task) (events : List Event)
      (row : TaskRow) (db : Tables) {es : List Event} {db' : Tables}
      → apply env current c ≡ ok (next, events)
      → In row db.tasks
      → row.task_id ≡ b.columns.uuid current.id
      → row.state ≡ current.state
      → persist_task_transition s b env arrived c digest current next events db ≡ ok (es, db')
      → Sound db
      → Sound db'
  unfolding persist_task_transition
  persist_task_transition-Sound c digest current next events row db a i id state h v =
      let reserved = reserved_row b.columns "TASK" (command_task_id c) digest (task_envelope c) in
      let (db1, h1, k1) = tx->>-eq-ok (reserve arrived reserved) _ h in
      let (db2, h2, k2) = tx->>-eq-ok (fault s before_events) _ k1 in
      let (db3, h3, k3) =
        tx->>-eq-ok (insert_events b.columns (task_envelope c).command_id events) _ k2 in
      let (db4, h4, k4) = tx->>-eq-ok (fault s before_snapshot) _ k3 in
      let (db5, h5, k5) = tx->>-eq-ok (update_task b.columns next current.revision) _ k4 in
      let (more, db6, h6, k6) = tx->>=-eq-ok (ready_events s b env arrived c next) _ k5 in
      let core = SameCore-trans (reserved_core {db = db} (reserve-eq-ok arrived reserved db h1).1) (
        SameCore-trans (same_core (fault-eq-ok s before_events h2)) (
          SameCore-trans (insert_events-SameCore b.columns (task_envelope c).command_id events h3)
            (same_core (fault-eq-ok s before_snapshot h4)))) in
      let updated =
        update_task-Sound c current next row db4 a (subst (In row) (sym core.tasks) i) id state
          (SameCore-Sound core v) in
      subst Sound (ap (λ p. p.1) (ok-injective k6)) (
        ready_events-Sound c next db5 h6
          (subst Sound (sym (update_task-eq-ok b.columns next current.revision db4 h5)) updated))

  fresh_task-Sound :
      (c : TaskCommand) (digest : String) (db : Tables) {out : CommandResult} {db' : Tables}
      → KeepsSpelling b.columns
      → fresh_task s b env arrived c digest db ≡ ok (out, db')
      → Sound db
      → Sound db'
  unfolding fresh_task
  fresh_task-Sound c digest db keeps h v =
      let run_id = task_run_id c in
      let id = command_task_id c in
      let (db1, h1, k1) = tx->>-eq-ok (validate_task_run_gate b.columns c) _ h in
      let same1 = validate_task_run_gate-eq-ok b.columns c db h1 in
      let (current, db2, h2, k2) = tx->>=-eq-ok (load_task b.columns env run_id id) _ k1 in
      let (row, found, scanned, same2) = load_task-eq-ok b.columns env run_id id h2 in
      let (next, db3, h3, k3) = tx->>=-eq-ok (lift (apply env current c)) _ k2 in
      let (applied, same3) = lift-eq-ok (apply env current c) h3 in
      let (events, db4, h4, k4) =
        tx->>=-eq-ok (persist_task_transition s b env arrived c digest current next.0 next.1) _
          k3 in
      let (out, db5, h5, k5) =
        tx->>=-eq-ok
          (record_result (b.columns.uuid (task_envelope c).command_id)
            (task_result s b env arrived next.0 events))
          _ k4 in
      let (db6, h6, k6) = tx->>-eq-ok (fault s before_commit) _ k5 in
      let core = same_core (same3 ∙ same2 ∙ same1) in
      let (there, test) =
        find_row-some (is_task (b.columns.uuid run_id) (b.columns.uuid id)) db1.tasks found in
      let named = (is_task-eq (b.columns.uuid run_id) (b.columns.uuid id) row test).1 in
      let persisted =
        persist_task_transition-Sound c digest current next.0 next.1 row db3 applied
          (subst (λ x. In row x.tasks) (sym (same3 ∙ same2)) there)
          (named ∙ sym (keeps id) ∙ ap b.columns.uuid (sym named ∙ sym scanned.id))
          (sym scanned.state) h4 (SameCore-Sound core v) in
      subst Sound (ap (λ p. p.1) (ok-injective k6)) (
        subst Sound (sym (fault-eq-ok s before_commit h6)) (
          SameCore-Sound
            (reserved_core {db = db4}
              (record_result-eq-ok (b.columns.uuid (task_envelope c).command_id)
                (task_result s b env arrived next.0 events) db4 h5).1)
            persisted))

  pub execute_task_transaction-Sound :
      (c : TaskCommand) (digest : String) (db : Tables) {out : CommandResult} {db' : Tables}
      → KeepsSpelling b.columns
      → execute_task_transaction s b env arrived c digest db ≡ ok (out, db')
      → Sound db
      → Sound db'
  unfolding execute_task_transaction
  execute_task_transaction-Sound c digest db keeps h v =
      let id = b.columns.uuid (task_envelope c).command_id in
      let (found, db1, h1, k1) = tx->>=-eq-ok (load_command_result id digest) _ h in
      let v1 = subst Sound (sym (load_command_result-eq-ok id digest db h1)) v in
      elim (Option-cases found) [
        | inl e ↦ fresh_task-Sound c digest db1 keeps (rw e at k1) v1
        | inr (result, e) ↦ subst Sound (ap (λ p. p.1) (ok-injective (rw e at k1))) v1
      ]
