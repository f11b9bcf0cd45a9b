-- ===== src/Workflow/Store/Sound/Fresh.antt =====
-- A transaction that executes a command on a run keeps the invariant of the tables.
use basic.Base.{
  ◌≡◌, refl, sym, subst, ap, ◌∙◌, String, true, false, List, ◌++◌, ok, ok-injective, inl, inr,
  Option-cases, eq_iff,
}
use basic.Base.Table.{In, find_row-some}
use basic.Workflow.Types.{Env, Event}
use basic.Workflow.Plan.Accepted.{RangesOnce}
use basic.Workflow.Run.Model.{Run}
use basic.Workflow.Run.Command.{RunCommand, create_run, cancel_run, envelope, command_run_id}
use basic.Workflow.Run.Decide.{RunPersistenceDecision, decide_run_command}
use basic.Workflow.Run.Inversion.{is_create}
use basic.Workflow.Store.Rows.{KeepsSpelling}
use basic.Workflow.Store.Tables.{
  CommandRow, CommandResult, Tables, Store, Backend, lift, fault, before_commit,
}
use basic.Workflow.Store.Commands.{record_result, load_command_result}
use basic.Workflow.Store.Records.{is_run}
use basic.Workflow.Store.Gates.{validate_run_task_gate}
use basic.Workflow.Store.Execute.{
  load_run_for_command, cancel_events, persist_run_transition, fresh_run, run_result,
  execute_run_transaction,
}
use basic.Workflow.Store.Decisions.{needs_accepted, is_cancel, decide-LeadsTo, decide_create}
use basic.Workflow.Store.Sound.{Sound, IsDone}
use basic.Workflow.Store.Sound.Cancel.{ReturnsRows}
use basic.Workflow.Store.Steps.{
  tx->>=-eq-ok, tx->>-eq-ok, SameCore, SameCore-Sound, SameCore-trans, same_core, reserved_core,
  fault-eq-ok, lift-eq-ok, load_run-eq-ok, load_command_result-eq-ok, record_result-eq-ok,
}
use basic.Workflow.Store.Sound.Save.{MayPlan}
use basic.Workflow.Store.Sound.Done.{validate_run_task_gate-eq-ok}
use basic.Workflow.Run.Command.{CreateRun}
use basic.Workflow.Store.Sound.Prepare.{
  load_run_for_command-create, load_run_for_command-update, gate-same, cancel_events-Prepared,
  may_plan,
}
use basic.Workflow.Store.Sound.Runs.{persist_create-Sound, persist_update-Sound}

needs_accepted-not-cancel : (c : RunCommand) → needs_accepted c ≡ true → is_cancel c ≡ false
needs_accepted-not-cancel (cancel_run c) h = cc
needs_accepted-not-cancel c h = refl

module _ (s : Store) (b : Backend) (env : Env) (arrived : List CommandRow) where
  -- What an execution of a run's command that is not a replay has done.
  record Decided (c : RunCommand) (digest : String) (db db' : Tables) : Type 0 where
    current : Run
    decided : RunPersistenceDecision
    cancelled : List Event
    start : Tables
    middle : Tables
    last : Tables
    loaded : load_run_for_command b.columns env c db ≡ ok (current, start)
    gated : validate_run_task_gate b.columns c start ≡ ok (tt, start)
    decision : decide_run_command env current c ≡ ok decided
    cancels : cancel_events s b env arrived c decided.next.id start ≡ ok (cancelled, middle)
    persists :
        persist_run_transition s b env arrived c digest
          (record decided { events = decided.events ++ cancelled })
          middle
        ≡ ok (tt, last)
    final : SameCore last db'

  fresh_run-Decided :
      (c : RunCommand) (digest : String) (db : Tables) {out : CommandResult} {db' : Tables}
      → fresh_run s b env arrived c digest db ≡ ok (out, db')
      → Decided c digest db db'
  unfolding fresh_run
  fresh_run-Decided c digest db h =
      let (current, start, h1, k1) = tx->>=-eq-ok (load_run_for_command b.columns env c) _ h in
      let (gate, h2, k2) = tx->>-eq-ok (validate_run_task_gate b.columns c) _ k1 in
      let same2 = gate-same b.columns c start h2 in
      let (decided, db3, h3, k3) = tx->>=-eq-ok (lift (decide_run_command env current c)) _ k2 in
      let (decision, same3) = lift-eq-ok (decide_run_command env current c) h3 in
      let (cancelled, middle, h4, k4) =
        tx->>=-eq-ok (cancel_events s b env arrived c decided.next.id) _ k3 in
      let d = record decided { events = decided.events ++ cancelled } in
      let (last, h5, k5) = tx->>-eq-ok (persist_run_transition s b env arrived c digest d) _ k4 in
      let (out, db6, h6, k6) =
        tx->>=-eq-ok
          (record_result (b.columns.uuid (envelope c).command_id) (run_result s b env arrived d)) _
          k5 in
      let (db7, h7, k7) = tx->>-eq-ok (fault s before_commit) _ k6 in
      record {
        current = current;
        decided = decided;
        cancelled = cancelled;
        start = start;
        middle = middle;
        last = last;
        loaded = h1;
        gated = subst (λ x. validate_run_task_gate b.columns c start ≡ ok (tt, x)) same2 h2;
        decision = decision;
        cancels =
            subst (λ x. cancel_events s b env arrived c decided.next.id x ≡ ok (cancelled, middle))
              (same3 ∙ same2) h4;
        persists = h5;
        final =
            SameCore-trans
              (reserved_core {db = last}
                (record_result-eq-ok (b.columns.uuid (envelope c).command_id)
                  (run_result s b env arrived d) last h6).1)
              (same_core (ap (λ p. p.1) (sym (ok-injective k7)) ∙ fault-eq-ok s before_commit h7));
      }

  fresh_create-Sound :
      (c : CreateRun) (digest : String) (db : Tables) {db' : Tables}
      → Decided (create_run c) digest db db'
      → Sound db
      → Sound db'
  unfolding cancel_events
  fresh_create-Sound c digest db w v =
      let (id, draft, tasks, deps) = decide_create env w.current c w.decision in
      let d = record w.decided { events = w.decided.events ++ w.cancelled } in
      let start = load_run_for_command-create b.columns env c db w.loaded in
      let middle = ap (λ p. p.1) (sym (ok-injective w.cancels)) in
      SameCore-Sound w.final (
        persist_create-Sound s b env arrived c digest d w.middle draft tasks deps w.persists
          (subst Sound (sym (middle ∙ start)) v))

  fresh_update-Sound :
      (c : RunCommand) (digest : String) (db : Tables) {db' : Tables}
      → KeepsSpelling b.columns
      → ReturnsRows b
      → RangesOnce env
      → is_create c ≡ false
      → Decided c digest db db'
      → Sound db
      → Sound db'
  fresh_update-Sound c digest db keeps returns once n w v =
      let id = command_run_id c in
      let d = record w.decided { events = w.decided.events ++ w.cancelled } in
      let (row, found, scanned, same) =
        load_run-eq-ok b.columns env id
          (sym (load_run_for_command-update b.columns env c db n) ∙ w.loaded) in
      let (there, test) = find_row-some (is_run (b.columns.uuid id)) db.runs found in
      let i = subst (λ x. In row x.runs) (sym same) there in
      let leads = decide-LeadsTo env w.current c n w.decision in
      let named = (eq_iff row.run_id (b.columns.uuid id)).0 test in
      let next =
        named ∙ sym (keeps id) ∙ ap b.columns.uuid (sym named ∙ sym scanned.id ∙ sym leads.id) in
      let v1 = subst Sound (sym same) v in
      let gate = validate_run_task_gate-eq-ok b.columns c row w.start named w.gated in
      let p =
        cancel_events-Prepared s b env arrived c w.decided.next.id row w.start returns next
          w.cancels v1 in
      let may =
        may_plan s b env arrived c w.current row w.start.runs w.decided once
          (λ q j e. v1.unique_runs row q i j e) next (sym scanned.state) leads.id w.decision in
      SameCore-Sound w.final (
        persist_update-Sound s b env arrived c digest d row w.middle n
          (subst (In row) (sym p.runs) i) next
          (subst (λ x. MayPlan b.columns c x d) (sym p.runs) may)
          (λ e.
            let needed = leads.executed e in
            (
              needed,
              subst (λ x. IsDone x row) (sym (p.unchanged (needs_accepted-not-cancel c needed)))
                  (gate.0 needed),
            ))
          (λ e. (leads.cancelled e, p.over (leads.cancelled e))) w.persists p.sound)

  pub execute_run_transaction-Sound :
      (c : RunCommand) (digest : String) (db : Tables) {out : CommandResult} {db' : Tables}
      → KeepsSpelling b.columns
      → ReturnsRows b
      → RangesOnce env
      → execute_run_transaction s b env arrived c digest db ≡ ok (out, db')
      → Sound db
      → Sound db'
  unfolding execute_run_transaction
  execute_run_transaction-Sound c digest db keeps returns once h v =
      let id = b.columns.uuid (envelope c).command_id in
      let (found, db1, h1, k1) = tx->>=-eq-ok (load_command_result id digest) _ h in
      let v1 = subst Sound (sym (load_command_result-eq-ok id digest db h1)) v in
      elim (Option-cases found) [
        | inl e ↦
            fresh-Sound c db1 keeps returns once (fresh_run-Decided c digest db1 (rw e at k1)) v1
        | inr (result, e) ↦ subst Sound (ap (λ p. p.1) (ok-injective (rw e at k1))) v1
      ]
    where
      fresh-Sound :
          (c : RunCommand) (db : Tables) {db' : Tables}
          → KeepsSpelling b.columns
          → ReturnsRows b
          → RangesOnce env
          → Decided c digest db db'
          → Sound db
          → Sound db'
      fresh-Sound (create_run c) db keeps returns once w v = fresh_create-Sound c digest db w v
      fresh-Sound c db keeps returns once w v =
          fresh_update-Sound c digest db keeps returns once refl w v
