-- ===== src/Workflow/Store/Steps.antt =====
-- What a statement of a transaction has done when it returns.
use basic.Base.{
  ◌≡◌, refl, sym, ap, ◌∙◌, String, Bool, true, false, not, Option, none, some, List, [], ◌∷◌, ◌++◌,
  Result, ok, err, ℕ, >>=-eq-ok, ok-injective, arith, inl, inr, Bool-cases, Option-cases, ◌==◌,
}
use basic.Base.Table.{find_row, count_rows, update_rows}
use basic.Workflow.Types.{Err, Env, Event, invalid_transition}
use basic.Workflow.Task.Command.{TaskCommand, command_run_id}
use basic.Workflow.Task.Model.{Task}
use basic.Workflow.Run.Model.{Run}
use basic.Workflow.Store.Rows.{
  TaskRow, RunRow, Columns, lifecycle_column, updated_task_row, updated_run_row, run_row, read_task,
  read_run,
}
use basic.Workflow.Store.Rows.Codec.{ScannedTask, ScannedRun, read_task-eq-ok, read_run-eq-ok}
use basic.Workflow.Store.Tables.{
  CommandResult, sentinel, CommandRow, EventRow, Tables, Store, StoreErr, FaultPoint, Tx, ◌>>=◌,
  ◌>>◌, fault, raise_if, lift, lift_store,
}
use basic.Workflow.Store.Commands.{
  reserve, has_id, found_result, stored_result, load_command_result, record_result, complete,
}
use basic.Workflow.Store.Gates.{validate_task_run_gate, admits}
use basic.Workflow.Store.Records.{
  is_task, is_run, load_task, load_run, run_at, task_at, insert_run, update_run, update_task,
  insert_event, event_row, insert_events, exists, clashes,
}
use basic.Workflow.Store.Sound.{Sound}

-- A chain that returns.
pub tx->>=-eq-ok :
    {A B : Type 0} (m : Tx A) (f : A → Tx B) {db : Tables} {out : B × Tables}
    → (m >>= f) db ≡ ok out
    → (a : A) × (db' : Tables) × (m db ≡ ok (a, db')) × (f a db' ≡ ok out)
tx->>=-eq-ok m f {db} h = let (p, e, k) = >>=-eq-ok (m db) _ h in (p.0, p.1, e, k)

pub tx->>-eq-ok :
    {A : Type 0} (m : Tx (Unit {0})) (k : Tx A) {db : Tables} {out : A × Tables}
    → (m >> k) db ≡ ok out
    → (db' : Tables) × (m db ≡ ok (tt, db')) × (k db' ≡ ok out)
tx->>-eq-ok m k {db} h = let (p, e, r) = >>=-eq-ok (m db) _ h in (p.1, e, r)

-- Runs, tasks and dependencies are as they were.
pub record SameCore (db db' : Tables) : Type 0 where
  pub runs : db'.runs ≡ db.runs
  pub tasks : db'.tasks ≡ db.tasks
  pub dependencies : db'.dependencies ≡ db.dependencies

pub same_core : {db db' : Tables} → db' ≡ db → SameCore db db'
same_core e = record {
  runs = ap (λ x. x.runs) e;
  tasks = ap (λ x. x.tasks) e;
  dependencies = ap (λ x. x.dependencies) e;
}

pub events_apart :
    {db db' : Tables} {events : List EventRow}
    → record db { events = events } ≡ db'
    → SameCore db db'
events_apart e = record {
  runs = ap (λ x. x.runs) (sym e);
  tasks = ap (λ x. x.tasks) (sym e);
  dependencies = ap (λ x. x.dependencies) (sym e);
}

pub reserved_core :
    {db db' : Tables} {commands : List CommandRow}
    → db' ≡ record db { commands = commands }
    → SameCore db db'
reserved_core e = record {
  runs = ap (λ x. x.runs) e;
  tasks = ap (λ x. x.tasks) e;
  dependencies = ap (λ x. x.dependencies) e;
}

pub SameCore-trans : {a b c : Tables} → SameCore a b → SameCore b c → SameCore a c
SameCore-trans x y = record {
  runs = y.runs ∙ x.runs;
  tasks = y.tasks ∙ x.tasks;
  dependencies = y.dependencies ∙ x.dependencies;
}

pub SameCore-Sound : {db db' : Tables} → SameCore db db' → Sound db → Sound db'
SameCore-Sound s v = rw (s.runs, s.tasks, s.dependencies) v

pub raise_if-eq-ok :
    (c : Bool) (e : StoreErr) {db : Tables} {u : Unit {0}} {db' : Tables}
    → raise_if c e db ≡ ok (u, db')
    → (c ≡ false) × (db' ≡ db)
raise_if-eq-ok true e h = cc
raise_if-eq-ok false e h = (refl, cc)

pub lift-eq-ok :
    {A : Type 0} (r : Result Err A) {db : Tables} {a : A} {db' : Tables}
    → lift r db ≡ ok (a, db')
    → (r ≡ ok a) × (db' ≡ db)
lift-eq-ok (ok a) h = (cc, cc)
lift-eq-ok (err e) h = cc

pub fault-eq-ok :
    (s : Store) (point : FaultPoint) {db db' : Tables} → fault s point db ≡ ok (tt, db') → db' ≡ db
unfolding fault
fault-eq-ok s point h = ground arith

pub reserve-eq-ok :
    (arrived : List CommandRow) (row : CommandRow) (db : Tables) {db' : Tables}
    → reserve arrived row db ≡ ok (tt, db')
    → (find_row (has_id row.command_id) (db.commands ++ arrived) ≡ none)
      × (db' ≡ record db { commands = db.commands ++ row ∷ [] })
unfolding reserve
reserve-eq-ok arrived row db h =
    elim (Option-cases (find_row (has_id row.command_id) (db.commands ++ arrived))) [
      | inl e ↦ (e, sym (ap (λ p. p.1) (ok-injective (rw (e, reserve) at h))))
      | inr (other, e) ↦ absurd (cc (rw (e, reserve) at h))
    ]

pub lift_store-eq-ok :
    {A : Type 0} (r : Result StoreErr A) {db : Tables} {a : A} {db' : Tables}
    → lift_store r db ≡ ok (a, db')
    → (r ≡ ok a) × (db' ≡ db)
lift_store-eq-ok (ok a) h = (cc, cc)
lift_store-eq-ok (err e) h = cc

pub load_task-eq-ok :
    (col : Columns) (env : Env) (run_id id : String) {db db' : Tables} {t : Task}
    → load_task col env run_id id db ≡ ok (t, db')
    → (row : TaskRow) × (find_row (is_task (col.uuid run_id) (col.uuid id)) db.tasks ≡ some row)
      × ScannedTask row t
      × (db' ≡ db)
unfolding load_task
load_task-eq-ok col env run_id id {db} h =
    let read = read_task env (find_row (is_task (col.uuid run_id) (col.uuid id)) db.tasks) in
    let (e, same) = lift-eq-ok read h in
    let (row, found, scanned) =
      read_task-eq-ok env (find_row (is_task (col.uuid run_id) (col.uuid id)) db.tasks) e in
    (row, found, scanned, same)

pub load_run-eq-ok :
    (col : Columns) (env : Env) (id : String) {db db' : Tables} {r : Run}
    → load_run col env id db ≡ ok (r, db')
    → (row : RunRow) × (find_row (is_run (col.uuid id)) db.runs ≡ some row)
      × ScannedRun row r
      × (db' ≡ db)
unfolding load_run
load_run-eq-ok col env id {db} h =
    let read = read_run col env (find_row (is_run (col.uuid id)) db.runs) in
    let (e, same) = lift_store-eq-ok read h in
    let (row, found, scanned) =
      read_run-eq-ok col env (find_row (is_run (col.uuid id)) db.runs) e in
    (row, found, scanned, same)

module _ (col : Columns) where
  pub insert_event-SameCore :
      (id : String) (e : Event) {db db' : Tables}
      → insert_event col id e db ≡ ok (tt, db')
      → SameCore db db'
  unfolding insert_event
  insert_event-SameCore id e {db} h =
      elim (Bool-cases (exists (find_row (clashes (event_row col id e).event) db.events))) [
        | inl c ↦ absurd (cc (rw (c, insert_event) at h))
        | inr c ↦ events_apart (ap (λ p. p.1) (ok-injective (rw (c, insert_event) at h)))
      ]

  pub insert_events-SameCore :
      (id : String) (es : List Event) {db db' : Tables}
      → insert_events col id es db ≡ ok (tt, db')
      → SameCore db db'
  unfolding insert_events
  insert_events-SameCore id [] h = same_core cc
  insert_events-SameCore id (e ∷ es) h =
      let (db1, a, b) = tx->>-eq-ok (insert_event col id e) _ h in
      SameCore-trans (insert_event-SameCore id e a) (insert_events-SameCore id es b)

  pub insert_run-eq-ok :
      (r : Run) (db : Tables) {db' : Tables}
      → insert_run col r db ≡ ok (tt, db')
      → (find_row (is_run (col.uuid r.id)) db.runs ≡ none)
        × (lifecycle : String) × (db'
            ≡ record db { runs = db.runs ++ run_row col r lifecycle ∷ [] })
  unfolding insert_run
  insert_run-eq-ok r db h = elim (Option-cases (lifecycle_column col r)) [
    | inl w ↦ absurd (cc (rw (w, insert_run) at h))
    | inr (lifecycle, w) ↦ elim (Option-cases (find_row (is_run (col.uuid r.id)) db.runs)) [
      | inl e ↦ (e, lifecycle, sym (ap (λ p. p.1) (ok-injective (rw (w, e, insert_run) at h))))
      | inr (other, e) ↦ absurd (cc (rw (w, e, insert_run) at h))
    ]
  ]

  pub update_run-eq-ok :
      (r : Run) (expected : ℕ) (db : Tables) {db' : Tables}
      → update_run col r expected db ≡ ok (tt, db')
      → (lifecycle : String) × (db' ≡ record db {
        runs = update_rows (run_at col r expected) (updated_run_row col r lifecycle) db.runs;
      })
  unfolding update_run
  update_run-eq-ok r expected db h = elim (Option-cases (lifecycle_column col r)) [
    | inl w ↦ absurd (cc (rw (w, update_run) at h))
    | inr (lifecycle, w) ↦ elim (Bool-cases (count_rows (run_at col r expected) db.runs == 1)) [
      | inl e ↦ (lifecycle, sym (ap (λ p. p.1) (ok-injective (rw (w, e, update_run) at h))))
      | inr e ↦ absurd (cc (rw (w, e, update_run) at h))
    ]
  ]

  pub update_task-eq-ok :
      (t : Task) (expected : ℕ) (db : Tables) {db' : Tables}
      → update_task col t expected db ≡ ok (tt, db')
      → db' ≡ record db {
        tasks = update_rows (task_at col t expected) (updated_task_row col t) db.tasks;
      }
  unfolding update_task
  update_task-eq-ok t expected db h =
      elim (Bool-cases (count_rows (task_at col t expected) db.tasks == 1)) [
        | inl e ↦ sym (ap (λ p. p.1) (ok-injective (rw (e, update_task) at h)))
        | inr e ↦ absurd (cc (rw (e, update_task) at h))
      ]

stored_result_same :
    (db : Tables) (r : Result StoreErr CommandResult) {found : Option CommandResult} {db' : Tables}
    → found_result db r ≡ ok (found, db')
    → db' ≡ db
stored_result_same db (ok result) h = sym (ap (λ p. p.1) (ok-injective h))
stored_result_same db (err e) h = cc

pub load_command_result-eq-ok :
    (id digest : String) (db : Tables) {found : Option CommandResult} {db' : Tables}
    → load_command_result id digest db ≡ ok (found, db')
    → db' ≡ db
unfolding load_command_result
load_command_result-eq-ok id digest db h = elim (Option-cases (find_row (has_id id) db.commands)) [
  | inl e ↦ sym (ap (λ p. p.1) (ok-injective (rw (e, load_command_result) at h)))
  | inr (row, e) ↦
      stored_result_same db (stored_result digest row) (rw (e, load_command_result) at h)
]

pub validate_task_run_gate-eq-ok :
    (col : Columns) (c : TaskCommand) (db : Tables) {db' : Tables}
    → validate_task_run_gate col c db ≡ ok (tt, db')
    → db' ≡ db
unfolding validate_task_run_gate
validate_task_run_gate-eq-ok col c db h =
    elim (Option-cases (find_row (is_run (col.uuid (command_run_id c))) db.runs)) [
      | inl e ↦ absurd (cc (rw (e, validate_task_run_gate) at h))
      | inr (row, e) ↦
          (raise_if-eq-ok (not (admits c row.state)) (sentinel invalid_transition)
            (rw (e, validate_task_run_gate) at h)).1
    ]

pub record_result-eq-ok :
    (id : String) (result : CommandResult) (db : Tables) {out : CommandResult} {db' : Tables}
    → record_result id result db ≡ ok (out, db')
    → (out ≡ result)
      × (db' ≡ record db { commands = update_rows (has_id id) (complete result) db.commands })
unfolding record_result
record_result-eq-ok id result db h =
    (sym (ap (λ p. p.0) (ok-injective h)), sym (ap (λ p. p.1) (ok-injective h)))
