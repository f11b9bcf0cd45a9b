-- ===== src/Workflow/Store/Replay/Again.antt =====
-- A command that is submitted again.
use mathlib.Core.List.{append-nil}
use mathlib.Core.Path.{subst₂}
use basic.Base.{
  ◌≡◌, refl, sym, subst, ap, String, Option, none, some, [], ◌++◌, Result, Check, ok, err,
  ok-injective, inl, inr, Option-cases,
}
use basic.Base.Table.{find_row}
use basic.Workflow.Types.{Err, Env}
use basic.Workflow.Task.Command.{TaskCommand, envelope as task_envelope, validate_task_command}
use basic.Workflow.Run.Command.{RunCommand, envelope, validate_run_command}
use basic.Workflow.Store.Tables.{
  CommandResult, CommandRow, Tables, Store, Backend, StoreErr, sentinel, replay_after_conflict,
  violation, no_rows, unmarshalable, undecodable, injected, Tx, ◌>>=◌,
}
use basic.Workflow.Store.Commands.{
  has_id, stored_result, load_command_result, replayed, as_replay, replay_after,
}
use basic.Workflow.Store.Execute.{
  fresh_run, unless_stored, execute_run_transaction, fresh_task, execute_task_transaction, finish,
  submit, execute_run, execute_task,
}
use basic.Workflow.Store.Steps.{tx->>=-eq-ok}
use basic.Workflow.Store.Replay.{
  Answered, load_command_result-Recorded, load_command_result-found, stored_result-eq-ok,
}
use basic.Workflow.Store.Replay.Answers.{fresh_run-Answered, fresh_task-Answered}

module _ (s : Store) (b : Backend) (env : Env) where
  -- A transaction that returns has its answer recorded.
  unless_stored-Answered :
      (id digest : String) (fresh : Tx CommandResult) (db : Tables) {out : CommandResult}
      {db' : Tables}
      → ((db1 : Tables) (out : CommandResult) (db' : Tables)
          → fresh db1 ≡ ok (out, db')
          → Answered s b env [] id digest out db')
      → (load_command_result id digest >>= unless_stored s b env [] fresh) db ≡ ok (out, db')
      → Answered s b env [] id digest out db'
  unless_stored-Answered id digest fresh db {out} {db'} k h =
      let (found, db1, h1, k1) = tx->>=-eq-ok (load_command_result id digest) _ h in
      elim (Option-cases found) [
        | inl e ↦ k db1 out db' (rw e at k1)
        | inr (result, e) ↦
            let same = ok-injective (rw e at k1) in
            subst₂ (Answered s b env [] id digest) (ap (λ p. p.0) same) (ap (λ p. p.1) same)
              (record {
                result = result;
                recorded = load_command_result-found id digest db (rw e at h1);
                same = refl;
              })
      ]

  -- Executed again, it replays, and changes nothing.
  unless_stored_again :
      (id digest : String) (fresh : Tx CommandResult) (db : Tables) {out : CommandResult}
      → Answered s b env [] id digest out db
      → (load_command_result id digest >>= unless_stored s b env [] fresh) db
        ≡ ok (replayed out, db)
  unless_stored_again id digest fresh db a =
      rw (load_command_result-Recorded id digest a.result db a.recorded) (rw a.same refl)

  -- The answer that `replayAfterConflict` gives is recorded too.
  as_replay-Answered :
      (id digest : String) (db : Tables) (row : CommandRow) (r : Result StoreErr CommandResult)
      {out : CommandResult}
      → find_row (has_id id) db.commands ≡ some row
      → stored_result digest row ≡ r
      → as_replay r ≡ ok out
      → Answered s b env [] id digest out db
  as_replay-Answered id digest db row (ok result) found e h =
      let (d, same) = stored_result-eq-ok digest row e in
      record {
        result = result;
        recorded = record { row = row; found = found; same_digest = d; same_result = same };
        same = ap replayed (sym (ok-injective h));
      }
  as_replay-Answered id digest db row (err e') found e h = cc

  replay_after-Answered :
      (id digest : String) (db : Tables) {out : CommandResult}
      → replay_after id digest (db.commands ++ []) ≡ ok out
      → Answered s b env [] id digest out db
  unfolding replay_after
  replay_after-Answered id digest db {out} h =
      let k = subst (λ x. replay_after id digest x ≡ ok out) (append-nil db.commands) h in
      elim (Option-cases (find_row (has_id id) db.commands)) [
        | inl e ↦ absurd (cc (rw (e, replay_after) at k))
        | inr (row, e) ↦
            as_replay-Answered id digest db row (stored_result digest row) e refl
              (rw (e, replay_after) at k)
      ]

  -- What a committed or replayed transaction answers is recorded.
  finish-Answered :
      (id digest : String) (fresh : Tx CommandResult) (db : Tables)
      (r : Result StoreErr (CommandResult × Tables)) {out : CommandResult} {db' : Tables}
      → ((db1 : Tables) (out : CommandResult) (db' : Tables)
          → fresh db1 ≡ ok (out, db')
          → Answered s b env [] id digest out db')
      → (load_command_result id digest >>= unless_stored s b env [] fresh) db ≡ r
      → finish s b env [] id digest db r ≡ (ok out, db')
      → Answered s b env [] id digest out db'
  finish-Answered id digest fresh db (ok (result, last)) k e h =
      let out_same = ok-injective (ap (λ p. p.0) h) in
      let db_same = ap (λ p. p.1) h in unless_stored-Answered id digest fresh db k cc
  finish-Answered id digest fresh db (err replay_after_conflict) k e h =
      subst (Answered s b env [] id digest _) (ap (λ p. p.1) h)
        (replay_after-Answered id digest db (ap (λ p. p.0) h))
  finish-Answered id digest fresh db (err (sentinel x)) k e h = cc
  finish-Answered id digest fresh db (err violation) k e h = cc
  finish-Answered id digest fresh db (err no_rows) k e h = cc
  finish-Answered id digest fresh db (err unmarshalable) k e h = cc
  finish-Answered id digest fresh db (err undecodable) k e h = cc
  finish-Answered id digest fresh db (err (injected x)) k e h = cc

  pub submit-Answered :
      (id : String) (checked : Check Err) (request : Option String) (text : String)
      (fresh : String → Tx CommandResult) (db : Tables) {out : CommandResult} {db' : Tables}
      → ((digest : String) (db1 : Tables) (out : CommandResult) (db' : Tables)
          → fresh digest db1 ≡ ok (out, db')
          → Answered s b env [] (b.columns.uuid id) digest out db')
      → request ≡ some text
      → submit s b env [] id checked request
          (λ digest.
            load_command_result (b.columns.uuid id) digest
            >>= unless_stored s b env [] (fresh digest))
          db
        ≡ (ok out, db')
      → (checked ≡ ok tt) × Answered s b env [] (b.columns.uuid id) (b.sha256_hex text) out db'
  submit-Answered id (err e) request text fresh db k same h = cc
  submit-Answered id (ok u) request text fresh db k same h =
      let digest = b.sha256_hex text in
      let run =
        load_command_result (b.columns.uuid id) digest
        >>= unless_stored s b env [] (fresh digest) in
      (
        refl,
        finish-Answered (b.columns.uuid id) digest (fresh digest) db (run db) (k digest) refl
            (rw same at h),
      )

  submit_again :
      (id : String) (checked : Check Err) (request : Option String)
      (fresh : String → Tx CommandResult) (db : Tables) {out : CommandResult} {db' : Tables}
      → ((digest : String) (db1 : Tables) (out : CommandResult) (db' : Tables)
          → fresh digest db1 ≡ ok (out, db')
          → Answered s b env [] (b.columns.uuid id) digest out db')
      → submit s b env [] id checked request
          (λ digest.
            load_command_result (b.columns.uuid id) digest
            >>= unless_stored s b env [] (fresh digest))
          db
        ≡ (ok out, db')
      → submit s b env [] id checked request
          (λ digest.
            load_command_result (b.columns.uuid id) digest
            >>= unless_stored s b env [] (fresh digest))
          db'
        ≡ (ok (replayed out), db')
  submit_again id (err e) request fresh db k h = cc
  submit_again id (ok _) none fresh db k h = cc
  submit_again id (ok _) (some text) fresh db {out} {db'} k h =
      let digest = b.sha256_hex text in
      ap (finish s b env [] (b.columns.uuid id) digest db') (
        unless_stored_again (b.columns.uuid id) digest (fresh digest) db'
          (submit-Answered id (ok tt) (some text) text fresh db k refl h).1)

  -- A run command that has returned a result, executed again on the tables it left, with no commits of
  -- other transactions during either execution, returns the same
  -- result, marked as a replay, and changes nothing.
  pub execute_run_again :
      (c : RunCommand) (db : Tables) {out : CommandResult} {db' : Tables}
      → execute_run s b env [] c db ≡ (ok out, db')
      → execute_run s b env [] c db' ≡ (ok (replayed out), db')
  unfolding execute_run execute_run_transaction
  execute_run_again c db =
      submit_again (envelope c).command_id (validate_run_command env c) (b.run_request c)
        (fresh_run s b env [] c) db (fresh_run-Answered s b env [] c)

  -- A task command that has returned a result, executed again on the tables it left, with no commits of
  -- other transactions during either execution, returns the
  -- same result, marked as a replay, and changes nothing.
  pub execute_task_again :
      (c : TaskCommand) (db : Tables) {out : CommandResult} {db' : Tables}
      → execute_task s b env [] c db ≡ (ok out, db')
      → execute_task s b env [] c db' ≡ (ok (replayed out), db')
  unfolding execute_task execute_task_transaction
  execute_task_again c db =
      submit_again (task_envelope c).command_id (validate_task_command env c) (b.task_request c)
        (fresh_task s b env [] c) db (fresh_task-Answered s b env [] c)
