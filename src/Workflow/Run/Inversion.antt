-- ===== src/Workflow/Run/Inversion.antt =====
-- What an accepted run command has passed.
use basic.Base.{
  sym, refl, ◌∙◌, not, str_eq, fail_if, ◌==◌, ◌+◌, ◌∷◌, ◌≡◌, subst, ap, Bool, true, false, List, ok,
  >>=-eq-ok, >>-eq-ok, ok-injective, arith, eq_iff,
}
use basic.Workflow.Types.{
  Env, Event, RunState, ActorKind, invalid, invalid_transition, unauthorized, revision_conflict,
  u64, is_terminal_run, validate_bound_artifact,
}
use basic.Workflow.Actors.{is_human}
use basic.Workflow.Task.Model.{Task}
use basic.Workflow.Plan.Graph.{TaskDependency}
use basic.Workflow.Plan.Build.{new_planned_tasks}
use basic.Workflow.Run.States.{is_task_plan_review}
use basic.Workflow.Run.Model.{Run, validate_run}
use basic.Workflow.Run.Command.{
  RunCommand, ApproveTaskGraph, create_run, approve_task_graph, envelope, command_run_id,
  validate_run_command,
}
use basic.Workflow.Run.Intake.{
  RunTransition, PlanningDecision, artifact_payload, new_run_event, approve_planning,
  finish_run_transition,
}
use basic.Workflow.Run.Apply.{apply_run_command, validate_applied, apply_run}
use basic.Workflow.Run.Decide.{RunPersistenceDecision, decide_run_command}

pub record RunAdmitted (env : Env) (r : Run) (c : RunCommand) : Type 0 where
  pub valid_run : validate_run env r ≡ ok tt
  pub valid_command : validate_run_command env c ≡ ok tt
  pub same_run : command_run_id c ≡ r.id
  pub current : (envelope c).expected_revision ≡ r.revision
  pub live : is_terminal_run r.state ≡ false

module _ (env : Env) (r : Run) (c : RunCommand) where
  validate_applied-RunAdmitted : validate_applied env r c ≡ ok tt → RunAdmitted env r c
  unfolding validate_applied
  validate_applied-RunAdmitted h = ground (arith, eq_iff (command_run_id c) r.id)

  -- To prove a property of an accepted command's result, prove it of each finished transition.
  pub apply_run_cases {ℓ} :
      (P : Run × List Event → Type ℓ) {p : Run × List Event}
      → apply_run env r c ≡ ok p
      → ((tr : RunTransition)
          → RunAdmitted env r c
          → apply_run_command env r c ≡ ok tr
          → P (finish_run_transition tr (envelope c)))
      → P p
  unfolding apply_run
  apply_run_cases P h k =
      let (v, rest) = >>-eq-ok (validate_applied env r c) _ h in
      let (tr, e, f) = >>=-eq-ok (apply_run_command env r c) _ rest in
      subst P (ok-injective f) (k tr (validate_applied-RunAdmitted v) e)

abbrev pub is_create : RunCommand → Bool
is_create (create_run c) = true
is_create _ = false

-- The checks of `Run.ApproveTaskGraph`, and the plan that passed.
pub record PlanAdmitted (env : Env) (r : Run) (a : ApproveTaskGraph)
    (planned : List Task × List TaskDependency × List Event) : Type 0 where
  pub same_run : a.id ≡ r.id
  pub current : a.meta.expected_revision ≡ r.revision
  pub in_review : r.state ≡ RunState.task_plan_review
  pub by_human : a.meta.actor.kind ≡ ActorKind.human
  pub bound : validate_bound_artifact env r.task_graph a.task_graph ≡ ok tt
  pub accepted : new_planned_tasks env r.id a.tasks a.dependencies a.meta ≡ ok planned

abbrev pub approved_run : Run → ApproveTaskGraph → Run
approved_run r a = record r {
  state = RunState.ready;
  revision = u64 (r.revision + 1);
  updated_at = a.meta.timestamp;
}

pub approve_planning-PlanAdmitted :
    (env : Env) (r : Run) (a : ApproveTaskGraph) {d : PlanningDecision}
    → approve_planning env r a ≡ ok d
    → (planned : List Task × List TaskDependency × List Event) × PlanAdmitted env r a planned
      × (d ≡ record {
        run = approved_run r a;
        tasks = planned.0;
        dependencies = planned.1;
        events =
            new_run_event
              (approved_run r a)
              a.meta
              "TASK_GRAPH_APPROVED"
              (artifact_payload "task_graph" a.task_graph)
            ∷ planned.2;
      })
unfolding approve_planning
approve_planning-PlanAdmitted env r a h =
    let (_, h1) = >>-eq-ok (validate_run env r) _ h in
    let (_, h2) = >>-eq-ok (validate_run_command env (approve_task_graph a)) _ h1 in
    let (e3, h3) = >>-eq-ok (fail_if (not (str_eq a.id r.id)) invalid) _ h2 in
    let (e4, h4) =
      >>-eq-ok (fail_if (not (a.meta.expected_revision == r.revision)) revision_conflict) _ h3 in
    let (e5, h5) = >>-eq-ok (fail_if (not (is_task_plan_review r.state)) invalid_transition) _ h4 in
    let (e6, h6) = >>-eq-ok (fail_if (not (is_human a.meta.actor.kind)) unauthorized) _ h5 in
    let (e7, h7) = >>-eq-ok (validate_bound_artifact env r.task_graph a.task_graph) _ h6 in
    let (planned, e8, h8) =
      >>=-eq-ok (new_planned_tasks env r.id a.tasks a.dependencies a.meta) _ h7 in
    (
      planned,
      record {
        same_run = ground (arith, eq_iff a.id r.id);
        current = ground arith;
        in_review = ground arith;
        by_human = ground arith;
        bound = e7;
        accepted = e8;
      },
      sym (ok-injective h8),
    )

-- A command on an existing run ends with a finished transition or with an approved plan.
pub decide_cases {ℓ} :
    (env : Env) (r : Run) (c : RunCommand) (P : Run → Type ℓ) {d : RunPersistenceDecision}
    → is_create c ≡ false
    → decide_run_command env r c ≡ ok d
    → ((tr : RunTransition)
        → RunAdmitted env r c
        → apply_run_command env r c ≡ ok tr
        → P (finish_run_transition tr (envelope c)).0)
    → ((a : ApproveTaskGraph) (planned : List Task × List TaskDependency × List Event)
        → c ≡ approve_task_graph a
        → PlanAdmitted env r a planned
        → P (approved_run r a))
    → P d.next
unfolding decide_run_command
decide_cases env r (create_run c) P n h k l = cc
decide_cases env r (approve_task_graph c) P n h k l =
    let (p, e, f) = >>=-eq-ok (approve_planning env r c) _ h in
    let (planned, v, g) = approve_planning-PlanAdmitted env r c e in
    subst P (ap (λ x. x.run) (sym g) ∙ ap (λ x. x.next) (ok-injective f)) (l c planned refl v)
decide_cases env r c P n h k l =
    let (p, e, f) = >>=-eq-ok (apply_run env r c) _ h in
    subst P (ap (λ x. x.next) (ok-injective f)) (apply_run_cases env r c (λ q. P q.0) e k)
