-- ===== src/Workflow/Run/Lifecycle.antt =====
-- The run transitions of docs/workflow-state-machine.md, with the actors that make them, against
-- `Run.Apply` and `Run.ApproveTaskGraph`.
use basic.Base.{sym, refl, ◌≡◌, ap, true, false, ok, arith, ◌+◌}
use basic.Workflow.Types.{Env, RunState, ActorKind, is_terminal_run, u64}
use basic.Workflow.Actors.{trusted_operational_actor}
use basic.Workflow.Run.Model.{Run}
use basic.Workflow.Run.Command.{RunCommand, create_run, envelope}
use basic.Workflow.Run.Intake.{RunTransition, finish_run_transition, validate_specification_review}
use basic.Workflow.Run.Completion.{validate_run_human_review}
use basic.Workflow.Run.Apply.{apply_run_command}
use basic.Workflow.Run.Inversion.{is_create, decide_cases}
use basic.Workflow.Run.Decide.{RunPersistenceDecision, decide_run_command}

-- The table of the document: who may take a run from one state to another.
pub data RunAllowed : ActorKind → RunState → RunState → Type 0 where
  proposes_specification :
      RunAllowed ActorKind.workflow_service RunState.draft RunState.specification_review
  returns_specification : RunAllowed ActorKind.human RunState.specification_review RunState.draft
  approves_specification :
      RunAllowed ActorKind.human RunState.specification_review RunState.task_planning
  rejects_specification : RunAllowed ActorKind.human RunState.specification_review RunState.rejected
  proposes_graph :
      RunAllowed ActorKind.workflow_service RunState.task_planning RunState.task_plan_review
  returns_graph : RunAllowed ActorKind.human RunState.task_plan_review RunState.task_planning
  approves_graph : RunAllowed ActorKind.human RunState.task_plan_review RunState.ready
  rejects_graph : RunAllowed ActorKind.human RunState.task_plan_review RunState.rejected
  starts : RunAllowed ActorKind.workflow_service RunState.ready RunState.executing
  executes : RunAllowed ActorKind.execution_service RunState.executing RunState.verifying
  verifies : RunAllowed ActorKind.verification_service RunState.verifying RunState.reviewing
  reviews : RunAllowed ActorKind.review_service RunState.reviewing RunState.awaiting_approval
  approves : RunAllowed ActorKind.human RunState.awaiting_approval RunState.merge_ready
  rejects : RunAllowed ActorKind.human RunState.awaiting_approval RunState.rejected
  publishes : RunAllowed ActorKind.publication_service RunState.merge_ready RunState.merge_ready
  merges : RunAllowed ActorKind.merge_service RunState.merge_ready RunState.merged
  fails :
      {a : ActorKind} {s : RunState}
      → trusted_operational_actor a ≡ true
      → is_terminal_run s ≡ false
      → RunAllowed a s RunState.failed
  cancels :
      {s : RunState} → is_terminal_run s ≡ false → RunAllowed ActorKind.human s RunState.cancelled

ruleset run_table = (
  proposes_specification, returns_specification, approves_specification, rejects_specification,
  proposes_graph, returns_graph, rejects_graph, approves_graph, starts, executes, verifies, reviews,
  approves, rejects, publishes, merges, fails, cancels,
)

record SameRun (r u : Run) : Type 0 where
  id : u.id ≡ r.id
  revision : u.revision ≡ r.revision
  created_at : u.created_at ≡ r.created_at

pub record Advanced (r : Run) (c : RunCommand) (u : Run) : Type 0 where
  pub expected : (envelope c).expected_revision ≡ r.revision
  pub revision : u.revision ≡ u64 (r.revision + 1)
  pub id : u.id ≡ r.id
  pub created_at : u.created_at ≡ r.created_at
  pub updated_at : u.updated_at ≡ (envelope c).timestamp

module _ (env : Env) where
  apply_run_command-SameRun :
      (r : Run) (c : RunCommand) {tr : RunTransition}
      → apply_run_command env r c ≡ ok tr
      → SameRun r tr.next
  unfolding apply_run_command
  apply_run_command-SameRun r (create_run c) h = cc
  apply_run_command-SameRun r c h = ground arith

  apply_run_command-RunAllowed :
      (r : Run) (c : RunCommand) {tr : RunTransition}
      → is_terminal_run r.state ≡ false
      → apply_run_command env r c ≡ ok tr
      → RunAllowed (envelope c).actor.kind r.state tr.next.state
  unfolding apply_run_command validate_specification_review validate_run_human_review
  apply_run_command-RunAllowed r (create_run c) l h = cc
  apply_run_command-RunAllowed r c l h = grind (arith, run_table)

  -- A command that the store accepts on an existing run, the approval of its task graph included,
  -- takes the run along an edge of the documented table, made by an actor that the table lists for
  -- it; no other change of state is possible.
  pub decide-RunAllowed :
      (r : Run) (c : RunCommand) {d : RunPersistenceDecision}
      → is_create c ≡ false
      → decide_run_command env r c ≡ ok d
      → RunAllowed (envelope c).actor.kind r.state d.next.state
  unfolding finish_run_transition
  decide-RunAllowed r c n h =
      decide_cases env r c (λ x. RunAllowed (envelope c).actor.kind r.state x.state) n h
        (λ tr a e. apply_run_command-RunAllowed r c a.live e)
        (λ a planned s v. rw (s, v.in_review, v.by_human) approves_graph)

  -- The revision advances by one (mod 2^64) from the one that the command expects, the identity and
  -- the creation time stay, and the update time is the command's.
  pub decide-revision :
      (r : Run) (c : RunCommand) {d : RunPersistenceDecision}
      → is_create c ≡ false
      → decide_run_command env r c ≡ ok d
      → Advanced r c d.next
  unfolding finish_run_transition
  decide-revision r c n h =
      decide_cases env r c (Advanced r c) n h
        (λ tr a e.
          let s = apply_run_command-SameRun r c e in
          record {
            expected = a.current;
            revision = ap (λ k. u64 (k + 1)) s.revision;
            id = s.id;
            created_at = s.created_at;
            updated_at = refl;
          })
        (λ a planned s v. record {
          expected = rw s v.current;
          revision = refl;
          id = refl;
          created_at = refl;
          updated_at = ap (λ x. (envelope x).timestamp) (sym s);
        })
