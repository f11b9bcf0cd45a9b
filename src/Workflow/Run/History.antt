-- ===== src/Workflow/Run/History.antt =====
-- A run from its creation on, under the commands that the store accepts.
use basic.Base.{◌≡◌, false, List, [], ◌∷◌, ok}
use basic.Workflow.Types.{Env, Event}
use basic.Workflow.Run.Model.{Run}
use basic.Workflow.Run.Command.{RunCommand, CreateRun, create_run}
use basic.Workflow.Run.Intake.{new_run}
use basic.Workflow.Run.Decide.{RunPersistenceDecision, decide_run_command}
use basic.Workflow.Run.Inversion.{is_create}
use basic.Workflow.Run.Evidence.{RunEvidence, new_run-RunEvidence, decide-RunEvidence}

-- `Reached env cs r`: the commands `cs`, the last first, were accepted in turn and led to `r`. The
-- store refuses to create a run that exists.
pub data Reached (env : Env) : List RunCommand → Run → Type 0 where
  created :
      {c : CreateRun} {r : Run} {es : List Event}
      → new_run env c ≡ ok (r, es)
      → Reached env (create_run c ∷ []) r
  decided :
      {cs : List RunCommand} {r : Run} {c : RunCommand} {d : RunPersistenceDecision}
      → Reached env cs r
      → is_create c ≡ false
      → decide_run_command env r c ≡ ok d
      → Reached env (c ∷ cs) d.next

pub Reached-RunEvidence :
    {env : Env} {cs : List RunCommand} {r : Run} → Reached env cs r → RunEvidence r
Reached-RunEvidence {env} (created {c = c} h) = new_run-RunEvidence env c h
Reached-RunEvidence {env} (decided {r = r} {c = c} p n h) =
    decide-RunEvidence env r c n (Reached-RunEvidence p) h
