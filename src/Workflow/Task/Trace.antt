-- ===== src/Workflow/Task/Trace.antt =====
-- A task under any sequence of commands. A refused command leaves the snapshot as it was, as the
-- store does when `Task.Apply` returns an error.
use basic.Base.{◌≡◌, refl, true, List, [], ◌∷◌, Result, ok, err}
use basic.Workflow.Types.{Env, Err, Event, is_terminal_task}
use basic.Workflow.Task.Model.{Task}
use basic.Workflow.Task.Command.{TaskCommand}
use basic.Workflow.Task.Apply.{apply}
use basic.Workflow.Task.Inversion.{apply_cases}
use basic.Workflow.Task.Evidence.{HasEvidence, apply-HasEvidence}

-- The snapshot after a command.
abbrev pub settle : Task → Result Err (Task × List Event) → Task
settle t (ok (t', es)) = t'
settle t (err e) = t

unfoldable pub replay : Env → Task → List TaskCommand → Task
replay env t [] = t
replay env t (c ∷ cs) = replay env (settle t (apply env t c)) cs

module _ (env : Env) where
  pub settle-HasEvidence :
      (t : Task) (c : TaskCommand) (r : Result Err (Task × List Event))
      → apply env t c ≡ r
      → HasEvidence t
      → HasEvidence (settle t r)
  settle-HasEvidence t c (ok (t', es)) e v = apply-HasEvidence env t c v e
  settle-HasEvidence t c (err x) e v = v

  -- The evidence invariant holds after any commands, accepted or refused.
  pub replay-HasEvidence :
      (t : Task) (cs : List TaskCommand) → HasEvidence t → HasEvidence (replay env t cs)
  unfolding replay
  replay-HasEvidence t [] v = v
  replay-HasEvidence t (c ∷ cs) v =
      replay-HasEvidence (settle t (apply env t c)) cs
        (settle-HasEvidence t c (apply env t c) refl v)

  settle_terminal :
      (t : Task) (c : TaskCommand) (r : Result Err (Task × List Event))
      → apply env t c ≡ r
      → is_terminal_task t.state ≡ true
      → settle t r ≡ t
  settle_terminal t c (ok (t', es)) e l =
      absurd (apply_cases env t c (λ p. ⊥) e (λ tr a x. cc (l, a.live)))
  settle_terminal t c (err x) e l = refl

  -- An accepted, failed or cancelled task never changes again.
  pub replay_terminal :
      (t : Task) (cs : List TaskCommand) → is_terminal_task t.state ≡ true → replay env t cs ≡ t
  unfolding replay
  replay_terminal t [] l = refl
  replay_terminal t (c ∷ cs) l =
      rw (settle_terminal t c (apply env t c) refl l) (replay_terminal t cs l)
