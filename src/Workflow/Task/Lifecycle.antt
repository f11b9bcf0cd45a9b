-- ===== src/Workflow/Task/Lifecycle.antt =====
-- The task transitions of docs/workflow-state-machine.md, with the actors that make them, against
-- `Task.Apply`.
use basic.Base.{◌≡◌, true, false, List, ok, arith}
use basic.Workflow.Types.{Env, Event, TaskState, ActorKind, is_terminal_task}
use basic.Workflow.Actors.{trusted_operational_actor}
use basic.Workflow.Task.Model.{Task}
use basic.Workflow.Task.Command.{TaskCommand, envelope, lease_task}
use basic.Workflow.Task.Checks.{TaskTransition, finish_task_transition, validate_human_review}
use basic.Workflow.Task.Apply.{apply_command, apply}
use basic.Workflow.Task.Inversion.{apply_cases}

-- The table of the document: who may take a task from one state to another.
pub data Allowed : ActorKind → TaskState → TaskState → Type 0 where
  leases : Allowed ActorKind.workflow_service TaskState.ready TaskState.leased
  releases : Allowed ActorKind.workflow_service TaskState.leased TaskState.ready
  reasons : Allowed ActorKind.reasoning_service TaskState.leased TaskState.reasoning
  rejects : Allowed ActorKind.reasoning_service TaskState.reasoning TaskState.proposal_rejected
  human_rejects : Allowed ActorKind.human TaskState.reasoning TaskState.proposal_rejected
  accepts : Allowed ActorKind.execution_service TaskState.reasoning TaskState.executing
  executes : Allowed ActorKind.execution_service TaskState.executing TaskState.verifying
  verifies : Allowed ActorKind.verification_service TaskState.verifying TaskState.reviewing
  fails_checks :
      Allowed ActorKind.verification_service TaskState.verifying TaskState.rework_required
  reviews : Allowed ActorKind.review_service TaskState.reviewing TaskState.awaiting_approval
  fails_review : Allowed ActorKind.review_service TaskState.reviewing TaskState.rework_required
  approves : Allowed ActorKind.human TaskState.awaiting_approval TaskState.accepted
  reworks : Allowed ActorKind.human TaskState.awaiting_approval TaskState.rework_required
  retries_proposal : Allowed ActorKind.workflow_service TaskState.proposal_rejected TaskState.ready
  exhausts_proposal :
      Allowed ActorKind.workflow_service TaskState.proposal_rejected TaskState.failed
  retries_rework : Allowed ActorKind.workflow_service TaskState.rework_required TaskState.ready
  exhausts_rework : Allowed ActorKind.workflow_service TaskState.rework_required TaskState.failed
  fails :
      {a : ActorKind} {s : TaskState}
      → trusted_operational_actor a ≡ true
      → is_terminal_task s ≡ false
      → Allowed a s TaskState.failed
  cancels :
      {s : TaskState}
      → is_terminal_task s ≡ false
      → Allowed ActorKind.workflow_service s TaskState.cancelled

ruleset table = (
  leases, releases, reasons, rejects, human_rejects, accepts, executes, verifies, fails_checks,
  reviews, fails_review, approves, reworks, retries_proposal, exhausts_proposal, retries_rework,
  exhausts_rework, fails, cancels,
)

module _ (env : Env) where
  apply_command-Allowed :
      (t : Task) (c : TaskCommand) {tr : TaskTransition}
      → is_terminal_task t.state ≡ false
      → apply_command env t c ≡ ok tr
      → Allowed (envelope c).actor.kind t.state tr.next.state
  unfolding apply_command validate_human_review
  apply_command-Allowed t (lease_task c) l h = grind (arith, table)
  apply_command-Allowed t c l h = grind (arith, table)

  -- An accepted command takes the task along an edge of the documented table, made by an actor
  -- that the table lists for it; no other change of state is possible.
  pub apply-Allowed :
      (t : Task) (c : TaskCommand) {t' : Task} {es : List Event}
      → apply env t c ≡ ok (t', es)
      → Allowed (envelope c).actor.kind t.state t'.state
  unfolding finish_task_transition
  apply-Allowed t c h =
      apply_cases env t c (λ p. Allowed (envelope c).actor.kind t.state p.0.state) h
        λ tr a e. apply_command-Allowed t c a.live e
