-- ===== src/Workflow/Task/Fencing.antt =====
-- Leases as fences: a command that carries a lease of another attempt is refused
-- (docs/decision-log.md, DEC-012).
use basic.Base.{◌≡◌, Option, none, some, List, ok, arith, ℕ}
use basic.Workflow.Types.{Env, Event}
use basic.Workflow.Task.Model.{Task, LeaseRef}
use basic.Workflow.Task.Command.{
  TaskCommand, lease_task, release_task_lease, start_reasoning, accept_task_proposal,
  record_task_execution,
}
use basic.Workflow.Task.Checks.{
  TaskTransition, finish_task_transition, validate_lease, validate_active_lease,
}
use basic.Workflow.Task.Apply.{apply_command, apply}
use basic.Workflow.Task.Inversion.{apply_cases}
use basic.Workflow.Task.Evidence.{HasEvidence, fence}

-- The lease that a command carries.
abbrev pub lease_of : TaskCommand → Option LeaseRef
lease_of (lease_task c) = some c.lease
lease_of (release_task_lease c) = some c.lease
lease_of (start_reasoning c) = some c.lease
lease_of (accept_task_proposal c) = some c.lease
lease_of (record_task_execution c) = some c.lease
lease_of _ = none

abbrev pub attempt_of : Option LeaseRef → ℕ → ℕ
attempt_of none n = n
attempt_of (some l) n = l.fencing_token

module _ (env : Env) where
  apply_command-fence :
      (t : Task) (c : TaskCommand) {tr : TaskTransition}
      → fence t.lease t.current_attempt ≡ t.current_attempt
      → apply_command env t c ≡ ok tr
      → attempt_of (lease_of c) tr.next.current_attempt ≡ tr.next.current_attempt
  unfolding apply_command validate_lease validate_active_lease
  apply_command-fence t (lease_task c) f h = ground arith
  apply_command-fence t c f h = ground arith

  -- On a task whose lease has the token of the current attempt, every accepted command that carries
  -- a lease carries the token of the attempt that the command leaves current.
  pub apply-fence :
      (t : Task) (c : TaskCommand) {t' : Task} {es : List Event}
      → HasEvidence t
      → apply env t c ≡ ok (t', es)
      → attempt_of (lease_of c) t'.current_attempt ≡ t'.current_attempt
  unfolding finish_task_transition
  apply-fence t c v h =
      apply_cases env t c (λ p. attempt_of (lease_of c) p.0.current_attempt ≡ p.0.current_attempt) h
        λ tr a e. apply_command-fence t c v.fenced e
