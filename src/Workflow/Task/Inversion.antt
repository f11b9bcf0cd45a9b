-- ===== src/Workflow/Task/Inversion.antt =====
-- What an accepted command has passed.
use basic.Base.{◌≡◌, subst, false, List, ok, >>=-eq-ok, >>-eq-ok, ok-injective, arith, eq_iff}
use basic.Workflow.Types.{Env, Event, is_terminal_task}
use basic.Workflow.Task.Model.{Task, validate_task}
use basic.Workflow.Task.Command.{
  TaskCommand, envelope, command_task_id, command_run_id, validate_task_command,
}
use basic.Workflow.Task.Checks.{TaskTransition, finish_task_transition}
use basic.Workflow.Task.Apply.{apply_command, validate_command, apply}

-- The checks that come before the dispatch on the command.
pub record Admitted (env : Env) (t : Task) (c : TaskCommand) : Type 0 where
  pub valid_task : validate_task env t ≡ ok tt
  pub valid_command : validate_task_command env c ≡ ok tt
  pub same_task : command_task_id c ≡ t.id
  pub same_run : command_run_id c ≡ t.run_id
  pub current : (envelope c).expected_revision ≡ t.revision
  pub live : is_terminal_task t.state ≡ false

module _ (env : Env) (t : Task) (c : TaskCommand) where
  pub validate_command-Admitted : validate_command env t c ≡ ok tt → Admitted env t c
  unfolding validate_command
  validate_command-Admitted h =
      ground (arith, eq_iff (command_task_id c) t.id, eq_iff (command_run_id c) t.run_id)

  pub apply-eq-ok :
      {t' : Task} {es : List Event}
      → apply env t c ≡ ok (t', es)
      → (tr : TaskTransition) × Admitted env t c
        × (apply_command env t c ≡ ok tr)
        × (finish_task_transition tr (envelope c) ≡ (t', es))
  unfolding apply
  apply-eq-ok h =
      let (v, rest) = >>-eq-ok (validate_command env t c) _ h in
      let (tr, e, f) = >>=-eq-ok (apply_command env t c) _ rest in
      (tr, validate_command-Admitted v, e, ok-injective f)

  -- To prove a property of an accepted command's result, prove it of each finished transition.
  pub apply_cases {ℓ} :
      (P : Task × List Event → Type ℓ) {p : Task × List Event}
      → apply env t c ≡ ok p
      → ((tr : TaskTransition)
          → Admitted env t c
          → apply_command env t c ≡ ok tr
          → P (finish_task_transition tr (envelope c)))
      → P p
  apply_cases P h k = let (tr, a, e, f) = apply-eq-ok h in subst P f (k tr a e)
