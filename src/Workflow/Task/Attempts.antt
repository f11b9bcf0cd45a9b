-- ===== src/Workflow/Task/Attempts.antt =====
-- The attempts of a task: how many leases it can be granted, and what is left when none is.
use basic.Base.{
  ◌≡◌, refl, Bool, true, false, List, [], ◌∷◌, Result, ok, err, arith, ℕ, suc, ◌≤◌, ◌<◌, ◌+◌, ◌⊎◌,
  if◌then◌else◌,
}
use basic.Workflow.Types.{Env, Err, Event, TaskState}
use basic.Workflow.Task.Model.{Task}
use basic.Workflow.Task.Command.{TaskCommand, lease_task}
use basic.Workflow.Task.Checks.{TaskTransition, finish_task_transition, validate_human_review}
use basic.Workflow.Task.Apply.{apply_command, apply}
use basic.Workflow.Task.Inversion.{apply_cases}
use basic.Workflow.Task.Evidence.{HasEvidence}
use basic.Workflow.Task.Trace.{settle, replay, settle-HasEvidence, replay-HasEvidence}

abbrev pub is_lease : TaskCommand → Bool
is_lease (lease_task c) = true
is_lease _ = false

-- Whether a command was a lease that was granted.
abbrev pub granted : TaskCommand → Result Err (Task × List Event) → ℕ
granted c (ok p) = if is_lease c then 1 else 0
granted c (err e) = 0

unfoldable pub leases_granted : Env → Task → List TaskCommand → ℕ
leases_granted env t [] = 0
leases_granted env t (c ∷ cs) =
    granted c (apply env t c) + leases_granted env (settle t (apply env t c)) cs

module _ (env : Env) where
  apply_command-current_attempt :
      (t : Task) (c : TaskCommand) {tr : TaskTransition}
      → t.max_attempts < 4294967296
      → apply_command env t c ≡ ok tr
      → tr.next.current_attempt ≡ (if is_lease c then suc t.current_attempt else t.current_attempt)
  unfolding apply_command
  apply_command-current_attempt t (lease_task c) m h = ground arith
  apply_command-current_attempt t c m h = ground arith

  -- An attempt is counted exactly where a lease is granted.
  pub apply-current_attempt :
      (t : Task) (c : TaskCommand) {t' : Task} {es : List Event}
      → t.max_attempts < 4294967296
      → apply env t c ≡ ok (t', es)
      → t'.current_attempt ≡ (if is_lease c then suc t.current_attempt else t.current_attempt)
  unfolding finish_task_transition
  apply-current_attempt t c m h =
      apply_cases env t c
        (λ p.
          p.0.current_attempt ≡ (if is_lease c then suc t.current_attempt else t.current_attempt))
        h λ tr a e. apply_command-current_attempt t c m e

  leases_granted-current_attempt :
      (t : Task) (c : TaskCommand) (r : Result Err (Task × List Event))
      → apply env t c ≡ r
      → t.max_attempts < 4294967296
      → (settle t r).current_attempt ≡ t.current_attempt + granted c r
  leases_granted-current_attempt t c (ok (t', es)) e m =
      ground (arith, apply-current_attempt t c m e)
  leases_granted-current_attempt t c (err x) e m = omega arith

  -- The leases granted over any commands are the attempts counted, and so at most `max_attempts`.
  pub leases_granted-le-max_attempts :
      (t : Task) (cs : List TaskCommand)
      → HasEvidence t
      → (t.current_attempt + leases_granted env t cs ≡ (replay env t cs).current_attempt)
        × (leases_granted env t cs ≤ (replay env t cs).max_attempts)
  unfolding replay leases_granted
  leases_granted-le-max_attempts t [] v = (omega arith, omega arith)
  leases_granted-le-max_attempts t (c ∷ cs) v =
      let v' = settle-HasEvidence env t c (apply env t c) refl v in
      let ih = leases_granted-le-max_attempts (settle t (apply env t c)) cs v' in
      let step = leases_granted-current_attempt t c (apply env t c) refl v.limit in
      let last = replay-HasEvidence env (settle t (apply env t c)) cs v' in
      (omega arith, omega arith)

  apply_command_exhausted :
      (t : Task) (c : TaskCommand) {tr : TaskTransition}
      → t.state ≡ TaskState.ready
      → t.max_attempts ≤ t.current_attempt
      → apply_command env t c ≡ ok tr
      → (tr.next.state ≡ TaskState.failed) ⊎ (tr.next.state ≡ TaskState.cancelled)
  unfolding apply_command validate_human_review
  apply_command_exhausted t (lease_task c) s m h = ground arith
  apply_command_exhausted t c s m h = ground arith

  -- A `READY` task with no attempt left, which the release of the last attempt's lease makes, takes
  -- no command but one that fails or cancels it: it is never leased again.
  pub apply_exhausted :
      (t : Task) (c : TaskCommand) {t' : Task} {es : List Event}
      → t.state ≡ TaskState.ready
      → t.max_attempts ≤ t.current_attempt
      → apply env t c ≡ ok (t', es)
      → (t'.state ≡ TaskState.failed) ⊎ (t'.state ≡ TaskState.cancelled)
  unfolding finish_task_transition
  apply_exhausted t c s m h =
      apply_cases env t c (λ p. (p.0.state ≡ TaskState.failed) ⊎ (p.0.state ≡ TaskState.cancelled))
        h λ tr a e. apply_command_exhausted t c s m e
