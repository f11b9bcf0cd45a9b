-- ===== src/Workflow/Task/States.antt =====
-- The tests of a task's state, `t.State != TaskStateReady` and so on, that
-- go/internal/workflow/task.go makes.
use basic.Base.{Bool, true, false}
use basic.Workflow.Types.{TaskState}

abbrev pub is_ready : TaskState → Bool
is_ready TaskState.ready = true
is_ready _ = false

abbrev pub is_leased : TaskState → Bool
is_leased TaskState.leased = true
is_leased _ = false

abbrev pub is_reasoning : TaskState → Bool
is_reasoning TaskState.reasoning = true
is_reasoning _ = false

abbrev pub is_executing : TaskState → Bool
is_executing TaskState.executing = true
is_executing _ = false

abbrev pub is_verifying : TaskState → Bool
is_verifying TaskState.verifying = true
is_verifying _ = false

abbrev pub is_reviewing : TaskState → Bool
is_reviewing TaskState.reviewing = true
is_reviewing _ = false

abbrev pub is_awaiting_approval : TaskState → Bool
is_awaiting_approval TaskState.awaiting_approval = true
is_awaiting_approval _ = false

abbrev pub is_retryable : TaskState → Bool
is_retryable TaskState.proposal_rejected = true
is_retryable TaskState.rework_required = true
is_retryable _ = false

abbrev pub is_pending : TaskState → Bool
is_pending TaskState.pending = true
is_pending _ = false

abbrev pub is_accepted : TaskState → Bool
is_accepted TaskState.accepted = true
is_accepted _ = false

-- `state IN ('FAILED','CANCELLED')`
abbrev pub is_stopped : TaskState → Bool
is_stopped TaskState.failed = true
is_stopped TaskState.cancelled = true
is_stopped _ = false
