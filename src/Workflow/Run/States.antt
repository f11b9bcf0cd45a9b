-- ===== src/Workflow/Run/States.antt =====
-- The tests of a run's state, `r.State != RunStateDraft` and so on, that
-- go/internal/workflow/run.go and run_completion.go make.
use basic.Base.{Bool, true, false}
use basic.Workflow.Types.{RunState}

abbrev pub is_draft : RunState → Bool
is_draft RunState.draft = true
is_draft _ = false

abbrev pub is_specification_review : RunState → Bool
is_specification_review RunState.specification_review = true
is_specification_review _ = false

abbrev pub is_task_planning : RunState → Bool
is_task_planning RunState.task_planning = true
is_task_planning _ = false

abbrev pub is_task_plan_review : RunState → Bool
is_task_plan_review RunState.task_plan_review = true
is_task_plan_review _ = false

abbrev pub is_ready : RunState → Bool
is_ready RunState.ready = true
is_ready _ = false

abbrev pub is_executing : RunState → Bool
is_executing RunState.executing = true
is_executing _ = false

abbrev pub is_verifying : RunState → Bool
is_verifying RunState.verifying = true
is_verifying _ = false

abbrev pub is_reviewing : RunState → Bool
is_reviewing RunState.reviewing = true
is_reviewing _ = false

abbrev pub is_awaiting_approval : RunState → Bool
is_awaiting_approval RunState.awaiting_approval = true
is_awaiting_approval _ = false

abbrev pub is_merge_ready : RunState → Bool
is_merge_ready RunState.merge_ready = true
is_merge_ready _ = false
