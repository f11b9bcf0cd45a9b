-- ===== src/Workflow/Task/Approval.antt =====
-- How a task comes to be accepted: by a human's `ApproveTask` and in no other way.
use mathlib.Core.List.{Memᴰ}
use basic.Base.{
  Bool-cases, ◌≡◌, refl, ap, sym, false, some, List, [], ◌∷◌, Result, ok, err, arith, ◌⊎◌, inl, inr,
  eq_iff,
}
use basic.Workflow.Types.{Env, Err, Event, TaskState, ActorKind, is_terminal_task}
use basic.Workflow.Task.Model.{Task}
use basic.Workflow.Task.Command.{TaskCommand, approve_task, ApproveTask}
use basic.Workflow.Task.Checks.{TaskTransition, finish_task_transition, validate_human_review}
use basic.Workflow.Task.Apply.{apply_command, apply}
use basic.Workflow.Task.Inversion.{apply_cases}
use basic.Workflow.Task.States.{is_accepted}
use basic.Workflow.Task.Trace.{settle, replay, replay_terminal}

-- A human approval of what `t` ends with.
pub record ApprovedBy (a : ApproveTask) (t : Task) : Type 0 where
  pub by_human : a.meta.actor.kind ≡ ActorKind.human
  pub same_candidate : a.candidate_commit ≡ t.candidate_commit
  pub bound : t.approval ≡ some a.approval

module _ (env : Env) where
  apply_command-accepted :
      (t : Task) (c : TaskCommand) {tr : TaskTransition}
      → is_terminal_task t.state ≡ false
      → apply_command env t c ≡ ok tr
      → tr.next.state ≡ TaskState.accepted
      → (a : ApproveTask) × (c ≡ approve_task a) × ApprovedBy a tr.next
  unfolding apply_command validate_human_review is_terminal_task
  apply_command-accepted t (approve_task a) l h s =
      (a, refl, ground (arith, eq_iff a.candidate_commit t.candidate_commit))
  apply_command-accepted t c l h s = ground arith

  apply-accepted :
      (t : Task) (c : TaskCommand) {t' : Task} {es : List Event}
      → apply env t c ≡ ok (t', es)
      → t'.state ≡ TaskState.accepted
      → (a : ApproveTask) × (c ≡ approve_task a) × ApprovedBy a t'
  unfolding finish_task_transition
  apply-accepted t c {t'} h =
      apply_cases env t c
        (λ p.
          p.0.state ≡ TaskState.accepted
          → (a : ApproveTask) × (c ≡ approve_task a) × ApprovedBy a p.0)
        h
        λ tr a e s.
          let (x, y, z) = apply_command-accepted t c a.live e s in
          (
            x,
            y,
            record { by_human = z.by_human; same_candidate = z.same_candidate; bound = z.bound },
          )

  settle-accepted :
      (t : Task) (c : TaskCommand) (r : Result Err (Task × List Event))
      → apply env t c ≡ r
      → is_accepted t.state ≡ false
      → (is_accepted (settle t r).state ≡ false)
        ⊎ ((a : ApproveTask) × (c ≡ approve_task a)
            × ApprovedBy a (settle t r)
            × ((settle t r).state ≡ TaskState.accepted))
  settle-accepted t c (err x) e n = inl n
  settle-accepted t c (ok (t', es)) e n = elim (Bool-cases (is_accepted t'.state)) [
    | inl y ↦
        let s : t'.state ≡ TaskState.accepted = ground arith in
        let (a, p, q) = apply-accepted t c e s in inr (a, p, q, s)
    | inr m ↦ inl m
  ]

  -- A task that is not accepted becomes so only by an `ApproveTask` among the commands, from a human
  -- actor, for the candidate commit that the task ends with and with the approval that it ends with.
  pub replay-accepted :
      (t : Task) (cs : List TaskCommand)
      → is_accepted t.state ≡ false
      → (replay env t cs).state ≡ TaskState.accepted
      → (a : ApproveTask) × Memᴰ (approve_task a) cs × ApprovedBy a (replay env t cs)
  unfolding replay
  replay-accepted t [] n s = absurd (ground arith)
  replay-accepted t (c ∷ cs) n s = elim (settle-accepted t c (apply env t c) refl n) [
    | inl m ↦
        let (a, i, p) = replay-accepted (settle t (apply env t c)) cs m s in (a, Memᴰ.tail i, p)
    | inr w ↦ (
      w.0,
      Memᴰ.head (sym w.1),
      rw
          (replay_terminal env (settle t (apply env t c)) cs
            (unfold is_terminal_task in ap is_terminal_task w.3))
          w.2,
    )
  ]
