-- ===== src/Workflow/Run/Evidence.antt =====
-- Which references a run holds in which state.
use basic.Base.{◌≡◌, Bool, true, false, none, List, ok, arith}
use basic.Base.Text.{matches_hex}
use basic.Workflow.Types.{Env, Event, RunState, is_terminal_run}
use basic.Workflow.Task.Evidence.{is_some}
use basic.Workflow.Run.States.{is_specification_review, is_task_plan_review}
use basic.Workflow.Run.Model.{Run}
use basic.Workflow.Run.Command.{ApproveTaskGraph, RunCommand, CreateRun, create_run}
use basic.Workflow.Run.Intake.{
  RunTransition, finish_run_transition, validate_specification_review, new_run,
}
use basic.Workflow.Run.Completion.{validate_run_human_review}
use basic.Workflow.Run.Apply.{apply_run_command}
use basic.Workflow.Run.Decide.{RunPersistenceDecision, decide_run_command}
use basic.Workflow.Run.Inversion.{is_create, approved_run, decide_cases}

-- `MERGED`.
abbrev pub is_merged : RunState → Bool
is_merged RunState.merged = true
is_merged _ = false

-- A human has approved the candidate.
abbrev pub is_run_approved : RunState → Bool
is_run_approved RunState.merge_ready = true
is_run_approved RunState.merged = true
is_run_approved _ = false

-- The candidate has a review.
abbrev pub is_reviewed : RunState → Bool
is_reviewed RunState.awaiting_approval = true
is_reviewed RunState.merge_ready = true
is_reviewed RunState.merged = true
is_reviewed _ = false

-- The candidate has its verification.
abbrev pub is_verified : RunState → Bool
is_verified RunState.reviewing = true
is_verified RunState.awaiting_approval = true
is_verified RunState.merge_ready = true
is_verified RunState.merged = true
is_verified _ = false

-- The run has a candidate commit.
abbrev pub is_executed : RunState → Bool
is_executed RunState.verifying = true
is_executed RunState.reviewing = true
is_executed RunState.awaiting_approval = true
is_executed RunState.merge_ready = true
is_executed RunState.merged = true
is_executed _ = false

-- A human has approved the task graph.
abbrev pub is_planned : RunState → Bool
is_planned RunState.ready = true
is_planned RunState.executing = true
is_planned RunState.verifying = true
is_planned RunState.reviewing = true
is_planned RunState.awaiting_approval = true
is_planned RunState.merge_ready = true
is_planned RunState.merged = true
is_planned _ = false

-- A human has approved the specification.
abbrev pub is_specified : RunState → Bool
is_specified RunState.task_planning = true
is_specified RunState.task_plan_review = true
is_specified RunState.ready = true
is_specified RunState.executing = true
is_specified RunState.verifying = true
is_specified RunState.reviewing = true
is_specified RunState.awaiting_approval = true
is_specified RunState.merge_ready = true
is_specified RunState.merged = true
is_specified _ = false

-- Live, with no candidate yet.
abbrev pub before_candidate : RunState → Bool
before_candidate RunState.draft = true
before_candidate RunState.specification_review = true
before_candidate RunState.task_planning = true
before_candidate RunState.task_plan_review = true
before_candidate RunState.ready = true
before_candidate RunState.executing = true
before_candidate _ = false

pub record RunEvidence (r : Run) : Type 0 where
  pub proposed : is_specification_review r.state ≡ true → is_some r.specification ≡ true
  pub specified : is_specified r.state ≡ true → is_some r.specification ≡ true
  pub graphed : is_task_plan_review r.state ≡ true → is_some r.task_graph ≡ true
  pub planned : is_planned r.state ≡ true → is_some r.task_graph ≡ true
  pub executed :
      is_executed r.state ≡ true
      → (is_some r.execution ≡ true) × (matches_hex 40 r.candidate_commit ≡ true)
  pub verified : is_verified r.state ≡ true → is_some r.verification ≡ true
  pub reviewed : is_reviewed r.state ≡ true → is_some r.review ≡ true
  pub approved : is_run_approved r.state ≡ true → is_some r.approval ≡ true
  pub merged : is_some r.merge ≡ is_merged r.state
  pub published : is_some r.publication ≡ true → is_some r.approval ≡ true
  pub unstarted :
      before_candidate r.state ≡ true
      → (r.execution ≡ none)
        × (r.candidate_commit ≡ "")
        × (r.verification ≡ none)
        × (r.review ≡ none)
        × (r.approval ≡ none)
        × (r.publication ≡ none)
  pub unapproved :
      is_terminal_run r.state ≡ false → is_run_approved r.state ≡ false → r.approval ≡ none

-- A new run has no reference at all.
pub new_run-RunEvidence :
    (env : Env) (c : CreateRun) {r : Run} {es : List Event}
    → new_run env c ≡ ok (r, es)
    → RunEvidence r
unfolding new_run is_terminal_run
new_run-RunEvidence env c h = ground arith

module _ (env : Env) where
  apply_run_command-RunEvidence :
      (r : Run) (c : RunCommand) {tr : RunTransition}
      → RunEvidence r
      → is_terminal_run r.state ≡ false
      → apply_run_command env r c ≡ ok tr
      → RunEvidence tr.next
  unfolding apply_run_command validate_specification_review validate_run_human_review
      is_terminal_run
  apply_run_command-RunEvidence r (create_run c) v l h = cc
  apply_run_command-RunEvidence r c v l h = ground arith

  approved_run-RunEvidence :
      (r : Run) (a : ApproveTaskGraph)
      → RunEvidence r
      → r.state ≡ RunState.task_plan_review
      → RunEvidence (approved_run r a)
  unfolding is_terminal_run
  approved_run-RunEvidence r a v s = ground arith

  -- Every command that the store accepts on a run keeps the evidence invariant: each state has the
  -- references that it rests on, a merge stands exactly in `MERGED`, a publication only beside an
  -- approval, and a run that is not yet executed has no candidate and nothing about one.
  pub decide-RunEvidence :
      (r : Run) (c : RunCommand) {d : RunPersistenceDecision}
      → is_create c ≡ false
      → RunEvidence r
      → decide_run_command env r c ≡ ok d
      → RunEvidence d.next
  unfolding finish_run_transition
  decide-RunEvidence r c n v h =
      decide_cases env r c RunEvidence n h
        (λ tr a e. let w = apply_run_command-RunEvidence r c v a.live e in ground arith)
        (λ a planned s p. approved_run-RunEvidence r a v p.in_review)
