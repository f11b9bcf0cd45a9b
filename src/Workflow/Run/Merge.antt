-- ===== src/Workflow/Run/Merge.antt =====
-- A merged run was approved three times by a human.
use mathlib.Core.List.{Memᴰ}
use basic.Base.{◌≡◌, refl, sym, ap, List, ◌∷◌, ok}
use basic.Workflow.Types.{Env, Event, RunState}
use basic.Workflow.Task.Model.{Task}
use basic.Workflow.Plan.Graph.{TaskDependency}
use basic.Workflow.Run.Model.{Run}
use basic.Workflow.Run.Command.{ApproveTaskGraph, RunCommand, approve_task_graph, envelope}
use basic.Workflow.Run.Intake.{RunTransition, finish_run_transition}
use basic.Workflow.Run.Apply.{apply_run_command}
use basic.Workflow.Run.Inversion.{PlanAdmitted, approved_run, decide_cases}
use basic.Workflow.Run.Evidence.{is_specified, is_planned, is_run_approved}
use basic.Workflow.Run.History.{Reached, created, decided}
use basic.Workflow.Run.Approvals.{
  SpecificationApproved, PlanApproved, CandidateApproved, Approvals, new_run-Approvals, keeps,
  bound-eq, specification-step, plan-kept, candidate-step, next-specification, next-plan,
  next-candidate,
}

module _ (env : Env) (r : Run) (cs : List RunCommand) (c : RunCommand) (v : Approvals cs r) where
  transition-Approvals :
      (t : RunTransition)
      → apply_run_command env r c ≡ ok t
      → Approvals (c ∷ cs) (finish_run_transition t (envelope c)).0
  unfolding finish_run_transition
  transition-Approvals t e = record {
    specification = λ s. next-specification v (specification-step env r c e s);
    plan = λ s. let k = plan-kept env r c e s in next-plan v k.0 k.1;
    candidate = λ s. next-candidate v (candidate-step env r c e s);
  }

  approved_run-Approvals :
      (a : ApproveTaskGraph) (planned : List Task × List TaskDependency × List Event)
      → c ≡ approve_task_graph a
      → PlanAdmitted env r a planned
      → Approvals (c ∷ cs) (approved_run r a)
  approved_run-Approvals a planned same p = record {
    specification = λ s. next-specification v (keeps (ap is_specified p.in_review) refl);
    plan = λ s. record {
      command = a;
      given = Memᴰ.head (sym same);
      by_human = p.by_human;
      held = bound-eq env r.task_graph a.task_graph p.bound;
    };
    candidate = λ s. cc;
  }

Reached-Approvals : {env : Env} {cs : List RunCommand} {r : Run} → Reached env cs r → Approvals cs r
Reached-Approvals {env} (created {c = c} h) = new_run-Approvals env c h
Reached-Approvals {env} (decided {cs = cs} {r = r} {c = c} p n h) =
    let v = Reached-Approvals p in
    decide_cases env r c (Approvals (c ∷ cs)) n h (λ t a e. transition-Approvals env r cs c v t e)
      (approved_run-Approvals env r cs c v)

-- A merged run was approved three times by a human: its specification, its task graph, and its
-- candidate commit with the review that it holds; each approval is among the accepted commands and
-- names what the run holds at the end.
pub merged-three_approvals :
    (env : Env) (cs : List RunCommand) (r : Run)
    → Reached env cs r
    → r.state ≡ RunState.merged
    → SpecificationApproved cs r × PlanApproved cs r × CandidateApproved cs r
merged-three_approvals env cs r p m =
    let v = Reached-Approvals p in
    (
      v.specification (ap is_specified m),
      v.plan (ap is_planned m),
      v.candidate (ap is_run_approved m),
    )
