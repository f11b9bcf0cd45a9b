-- ===== src/Workflow/Run/Approvals.antt =====
-- The three approvals that a run needs, and what one command does to those already given.
use mathlib.Core.List.{Memᴰ}
use basic.Base.{
  ◌≡◌, refl, sym, ap, ◌∙◌, true, Option, none, some, List, [], ◌∷◌, ok, arith, String, eq_iff,
}
use basic.Workflow.Types.{
  Env, Event, ActorKind, ArtifactRef, equal_artifact, validate_bound_artifact,
}
use basic.Workflow.Run.Model.{Run}
use basic.Workflow.Run.Command.{
  ApproveSpecification, ApproveTaskGraph, ApproveRun, RunCommand, CreateRun, create_run,
  approve_specification, approve_task_graph, approve_run,
}
use basic.Workflow.Run.Intake.{RunTransition, validate_specification_review, new_run}
use basic.Workflow.Run.Completion.{validate_run_human_review}
use basic.Workflow.Run.Apply.{apply_run_command}
use basic.Workflow.Run.Evidence.{is_specified, is_planned, is_run_approved}

-- A human approved the specification that the run holds.
pub record SpecificationApproved (cs : List RunCommand) (r : Run) : Type 0 where
  pub command : ApproveSpecification
  pub given : Memᴰ (approve_specification command) cs
  pub by_human : command.meta.actor.kind ≡ ActorKind.human
  pub held : r.specification ≡ some command.specification

pub record PlanApproved (cs : List RunCommand) (r : Run) : Type 0 where
  pub command : ApproveTaskGraph
  pub given : Memᴰ (approve_task_graph command) cs
  pub by_human : command.meta.actor.kind ≡ ActorKind.human
  pub held : r.task_graph ≡ some command.task_graph

pub record CandidateApproved (cs : List RunCommand) (r : Run) : Type 0 where
  pub command : ApproveRun
  pub given : Memᴰ (approve_run command) cs
  pub by_human : command.meta.actor.kind ≡ ActorKind.human
  pub held : r.approval ≡ some command.approval
  pub candidate : r.candidate_commit ≡ command.candidate_commit
  pub review : r.review ≡ some command.review

-- What the approvals so far say of the run.
pub record Approvals (cs : List RunCommand) (r : Run) : Type 0 where
  pub specification : is_specified r.state ≡ true → SpecificationApproved cs r
  pub plan : is_planned r.state ≡ true → PlanApproved cs r
  pub candidate : is_run_approved r.state ≡ true → CandidateApproved cs r

pub new_run-Approvals :
    (env : Env) (c : CreateRun) {r : Run} {es : List Event}
    → new_run env c ≡ ok (r, es)
    → Approvals (create_run c ∷ []) r
unfolding new_run
new_run-Approvals env c h = record {
  specification = λ s. absurd (ground arith);
  plan = λ s. absurd (ground arith);
  candidate = λ s. absurd (ground arith);
}

-- One command either gives an approval or leaves what was approved as it was.
pub data SpecificationStep (c : RunCommand) (r : Run) (held : Option ArtifactRef) : Type 0 where
  approves :
      (a : ApproveSpecification)
      → c ≡ approve_specification a
      → a.meta.actor.kind ≡ ActorKind.human
      → held ≡ some a.specification
      → SpecificationStep c r held
  keeps : is_specified r.state ≡ true → held ≡ r.specification → SpecificationStep c r held

record SameCandidate (r u : Run) : Type 0 where
  approved : is_run_approved r.state ≡ true
  approval : u.approval ≡ r.approval
  candidate : u.candidate_commit ≡ r.candidate_commit
  review : u.review ≡ r.review

pub data CandidateStep (c : RunCommand) (r : Run) (approval : Option ArtifactRef) (commit : String)
    (review : Option ArtifactRef) : Type 0 where
  approves :
      (a : ApproveRun)
      → c ≡ approve_run a
      → a.meta.actor.kind ≡ ActorKind.human
      → approval ≡ some a.approval
      → commit ≡ a.candidate_commit
      → review ≡ some a.review
      → CandidateStep c r approval commit review
  keeps :
      is_run_approved r.state ≡ true
      → approval ≡ r.approval
      → commit ≡ r.candidate_commit
      → review ≡ r.review
      → CandidateStep c r approval commit review

pub same_artifact : (a b : ArtifactRef) → equal_artifact a b ≡ true → a ≡ b
unfolding equal_artifact
same_artifact a b h = ground (arith, eq_iff a.uri b.uri, eq_iff a.digest b.digest)

pub bound-eq :
    (env : Env) (o : Option ArtifactRef) (a : ArtifactRef)
    → validate_bound_artifact env o a ≡ ok tt
    → o ≡ some a
unfolding validate_bound_artifact
bound-eq env none a h = ground arith
bound-eq env (some b) a h = ap some (same_artifact b a (ground arith))

review-eq :
    (env : Env) (r : Run) (c : ApproveSpecification)
    → validate_specification_review env r c.meta.actor c.specification ≡ ok tt
    → (c.meta.actor.kind ≡ ActorKind.human) × (r.specification ≡ some c.specification)
unfolding validate_specification_review validate_bound_artifact
review-eq env r c h = (ground arith, bound-eq env r.specification c.specification (ground arith))

human_review-eq :
    (env : Env) (r : Run) (c : ApproveRun)
    → validate_run_human_review env r c.meta.actor c.candidate_commit c.review ≡ ok tt
    → (c.meta.actor.kind ≡ ActorKind.human)
      × (r.candidate_commit ≡ c.candidate_commit)
      × (r.review ≡ some c.review)
unfolding validate_run_human_review
human_review-eq env r c h = (
  ground arith,
  ground (arith, eq_iff c.candidate_commit r.candidate_commit),
  bound-eq env r.review c.review (ground arith),
)

module _ (env : Env) (r : Run) where
  pub specification-step :
      (c : RunCommand) {tr : RunTransition}
      → apply_run_command env r c ≡ ok tr
      → is_specified tr.next.state ≡ true
      → SpecificationStep c r tr.next.specification
  unfolding apply_run_command validate_run_human_review
  specification-step (approve_specification c) h s =
      let (k, e) = review-eq env r c (ground arith) in approves c refl k (ground (arith, e))
  specification-step (create_run c) h s = cc
  specification-step c {tr} h s =
      let kept : (is_specified r.state ≡ true) × (tr.next.specification ≡ r.specification) =
        ground arith in
      keeps kept.0 kept.1

  pub plan-kept :
      (c : RunCommand) {tr : RunTransition}
      → apply_run_command env r c ≡ ok tr
      → is_planned tr.next.state ≡ true
      → (is_planned r.state ≡ true) × (tr.next.task_graph ≡ r.task_graph)
  unfolding apply_run_command validate_run_human_review validate_specification_review
  plan-kept (create_run c) h s = cc
  plan-kept c h s = ground arith

  pub candidate-step :
      (c : RunCommand) {tr : RunTransition}
      → apply_run_command env r c ≡ ok tr
      → is_run_approved tr.next.state ≡ true
      → CandidateStep c r tr.next.approval tr.next.candidate_commit tr.next.review
  unfolding apply_run_command validate_specification_review
  candidate-step (approve_run c) h s =
      let (k, e, f) = human_review-eq env r c (ground arith) in
      approves c refl k (ground (arith, e)) (ground (arith, e)) (ground (arith, f))
  candidate-step (create_run c) h s = cc
  candidate-step c {tr} h s =
      let kept : SameCandidate r tr.next = ground arith in
      keeps kept.approved kept.approval kept.candidate kept.review

module _ {cs : List RunCommand} {c : RunCommand} {r u : Run} (v : Approvals cs r) where
  pub next-specification : SpecificationStep c r u.specification → SpecificationApproved (c ∷ cs) u
  next-specification (approves a same k e) = record {
    command = a;
    given = Memᴰ.head (sym same);
    by_human = k;
    held = e;
  }
  next-specification (keeps s e) =
      let w = v.specification s in
      record {
        command = w.command;
        given = Memᴰ.tail w.given;
        by_human = w.by_human;
        held = e ∙ w.held;
      }

  pub next-plan : is_planned r.state ≡ true → u.task_graph ≡ r.task_graph → PlanApproved (c ∷ cs) u
  next-plan s e =
      let w = v.plan s in
      record {
        command = w.command;
        given = Memᴰ.tail w.given;
        by_human = w.by_human;
        held = e ∙ w.held;
      }

  pub next-candidate :
      CandidateStep c r u.approval u.candidate_commit u.review → CandidateApproved (c ∷ cs) u
  next-candidate (approves a same k e f g) = record {
    command = a;
    given = Memᴰ.head (sym same);
    by_human = k;
    held = e;
    candidate = f;
    review = g;
  }
  next-candidate (keeps s e f g) =
      let w = v.candidate s in
      record {
        command = w.command;
        given = Memᴰ.tail w.given;
        by_human = w.by_human;
        held = e ∙ w.held;
        candidate = f ∙ w.candidate;
        review = g ∙ w.review;
      }
