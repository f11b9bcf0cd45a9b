-- ===== src/Workflow/Store/Sound/Done.antt =====
-- What the gate of a run command establishes: the completion commands find every task accepted.
use basic.Base.{◌≡◌, ℕ, String, true, false, not, ◌&&◌, ◌||◌, ok, arith, ◌==◌, eq_iff}
use basic.Base.Table.{count_rows, count_rows-all, count_rows-some}
use basic.Workflow.Types.{invalid_transition}
use basic.Workflow.Task.States.{is_accepted}
use basic.Workflow.Run.Command.{
  RunCommand, start_run, record_run_execution, record_run_verification, record_run_review,
  approve_run, reject_run, record_draft_pull_request, record_merge, command_run_id,
}
use basic.Workflow.Store.Rows.{RunRow, Columns}
use basic.Workflow.Store.Tables.{Tables, sentinel}
use basic.Workflow.Store.Records.{in_run}
use basic.Workflow.Store.Gates.{require_accepted, require_runnable, validate_run_task_gate}
use basic.Workflow.Store.Decisions.{needs_accepted}
use basic.Workflow.Store.Sound.{IsDone}
use basic.Workflow.Store.Steps.{raise_if-eq-ok}

-- A run whose tasks are all accepted passes the gate of the completion commands, and no other.
pub require_accepted-IsDone :
    (row : RunRow) (db : Tables) {db' : Tables}
    → require_accepted row.run_id db ≡ ok (tt, db')
    → IsDone db.tasks row × (db' ≡ db)
unfolding require_accepted
require_accepted-IsDone row db h =
    let total = count_rows (in_run row.run_id) db.tasks in
    let accepted = count_rows (λ t. in_run row.run_id t && is_accepted t.state) db.tasks in
    let (passed, same) =
      raise_if-eq-ok (total == 0 || not (accepted == total)) (sentinel invalid_transition) h in
    let (t, i, e) =
      count_rows-some (in_run row.run_id) db.tasks (some_task total accepted passed) in
    (
      (
        λ u j r.
            count_rows-all (in_run row.run_id) (λ t. is_accepted t.state) db.tasks u
              (all_tasks total accepted passed) j ((eq_iff u.run_id row.run_id).1 r),
        (t, i, (eq_iff t.run_id row.run_id).0 e),
      ),
      same,
    )
  where
    some_task :
        (total accepted : ℕ)
        → (total == 0 || not (accepted == total)) ≡ false
        → (total == 0) ≡ false
    some_task total accepted h = ground arith

    all_tasks :
        (total accepted : ℕ) → (total == 0 || not (accepted == total)) ≡ false → accepted ≡ total
    all_tasks total accepted h = ground arith

require_runnable-same :
    (id : String) (db : Tables) {db' : Tables} → require_runnable id db ≡ ok (tt, db') → db' ≡ db
unfolding require_runnable
require_runnable-same id db h = (raise_if-eq-ok _ (sentinel invalid_transition) h).1

pub validate_run_task_gate-eq-ok :
    (col : Columns) (c : RunCommand) (row : RunRow) (db : Tables) {db' : Tables}
    → row.run_id ≡ col.uuid (command_run_id c)
    → validate_run_task_gate col c db ≡ ok (tt, db')
    → (needs_accepted c ≡ true → IsDone db.tasks row) × (db' ≡ db)
unfolding validate_run_task_gate
validate_run_task_gate-eq-ok col (start_run c) row db e h =
    (λ n. cc, require_runnable-same (col.uuid c.id) db h)
validate_run_task_gate-eq-ok col (record_run_execution c) row db e h =
    let g = require_accepted-IsDone row db (rw e h) in (λ n. g.0, g.1)
validate_run_task_gate-eq-ok col (record_run_verification c) row db e h =
    let g = require_accepted-IsDone row db (rw e h) in (λ n. g.0, g.1)
validate_run_task_gate-eq-ok col (record_run_review c) row db e h =
    let g = require_accepted-IsDone row db (rw e h) in (λ n. g.0, g.1)
validate_run_task_gate-eq-ok col (approve_run c) row db e h =
    let g = require_accepted-IsDone row db (rw e h) in (λ n. g.0, g.1)
validate_run_task_gate-eq-ok col (reject_run c) row db e h =
    let g = require_accepted-IsDone row db (rw e h) in (λ n. g.0, g.1)
validate_run_task_gate-eq-ok col (record_draft_pull_request c) row db e h =
    let g = require_accepted-IsDone row db (rw e h) in (λ n. g.0, g.1)
validate_run_task_gate-eq-ok col (record_merge c) row db e h =
    let g = require_accepted-IsDone row db (rw e h) in (λ n. g.0, g.1)
validate_run_task_gate-eq-ok col c row db e h = (λ n. cc, cc)
