-- ===== src/Workflow/Store/Gates.antt =====
-- What a command needs of the other table: `validateRunTaskGate` and `validateTaskRunGate` of
-- go/internal/workflow/store.go.
use basic.Base.{String, Bool, true, false, not, ◌&&◌, ◌||◌, none, some, err, ◌==◌}
use basic.Base.Table.{find_row, count_rows}
use basic.Workflow.Types.{RunState, invalid_transition, not_found}
use basic.Workflow.Task.States.{is_accepted, is_stopped}
use basic.Workflow.Task.Command.{TaskCommand, cancel_task, command_run_id as task_run_id}
use basic.Workflow.Run.States.{is_executing}
use basic.Workflow.Run.Command.{
  RunCommand, start_run, record_run_execution, record_run_verification, record_run_review,
  approve_run, reject_run, record_draft_pull_request, record_merge,
}
use basic.Workflow.Store.Rows.{Columns}
use basic.Workflow.Store.Tables.{sentinel, Tx, pure, raise_if}
use basic.Workflow.Store.Records.{is_run, in_run}

-- No task of the run has failed or is cancelled, and there is one.
unfoldable pub require_runnable : String → Tx (Unit {0})
require_runnable id db =
    let total = count_rows (in_run id) db.tasks in
    let terminal = count_rows (λ t. in_run id t && is_stopped t.state) db.tasks in
    raise_if (total == 0 || not (terminal == 0)) (sentinel invalid_transition) db

-- Every task of the run is accepted, and there is one.
unfoldable pub require_accepted : String → Tx (Unit {0})
require_accepted id db =
    let total = count_rows (in_run id) db.tasks in
    let accepted = count_rows (λ t. in_run id t && is_accepted t.state) db.tasks in
    raise_if (total == 0 || not (accepted == total)) (sentinel invalid_transition) db

unfoldable pub validate_run_task_gate : Columns → RunCommand → Tx (Unit {0})
unfolding require_runnable require_accepted
validate_run_task_gate col (start_run c) = require_runnable (col.uuid c.id)
validate_run_task_gate col (record_run_execution c) = require_accepted (col.uuid c.id)
validate_run_task_gate col (record_run_verification c) = require_accepted (col.uuid c.id)
validate_run_task_gate col (record_run_review c) = require_accepted (col.uuid c.id)
validate_run_task_gate col (approve_run c) = require_accepted (col.uuid c.id)
validate_run_task_gate col (reject_run c) = require_accepted (col.uuid c.id)
validate_run_task_gate col (record_draft_pull_request c) = require_accepted (col.uuid c.id)
validate_run_task_gate col (record_merge c) = require_accepted (col.uuid c.id)
validate_run_task_gate col _ = pure tt

abbrev pub is_cancelled_run : RunState → Bool
is_cancelled_run RunState.cancelled = true
is_cancelled_run _ = false

-- The state that the owning run must be in.
abbrev pub admits : TaskCommand → RunState → Bool
admits (cancel_task c) state = is_cancelled_run state
admits _ state = is_executing state

unfoldable pub validate_task_run_gate : Columns → TaskCommand → Tx (Unit {0})
validate_task_run_gate col c db = elim (find_row (is_run (col.uuid (task_run_id c))) db.runs) [
  | none ↦ err (sentinel not_found)
  | some row ↦ raise_if (not (admits c row.state)) (sentinel invalid_transition) db
]
