-- ===== src/Workflow/Store/Decisions.antt =====
-- What the decision on a run command means for the tables: the state that it leads to, and the tasks
-- and dependencies that it plans.
use mathlib.Core.Path.{subst₂}
use basic.Base.{
  ◌≡◌, refl, sym, subst, ap, ◌∙◌, ◌<◌, String, Bool, true, false, List, [], ◌∷◌, map, ok, arith,
  ◌⊎◌, inl, inr, All, Bool-cases, ◌==◌, >>=-eq-ok, ok-injective, str_eq, eq_iff, if◌then◌else◌,
}
use basic.Base.Table.{In}
use basic.Workflow.Types.{Env, Event, RunState, TaskState, is_terminal_run}
use basic.Workflow.Task.Model.{Task}
use basic.Workflow.Plan.Graph.{TaskDefinition, TaskDependency, has}
use basic.Workflow.Plan.Counting.{occ, unmet}
use basic.Workflow.Plan.Accepted.{
  RangesOnce, Accepted, Together, nil, cons, Planned, prerequisites, new_planned_tasks-Accepted,
}
use basic.Workflow.Run.Model.{Run}
use basic.Workflow.Run.Command.{
  RunCommand, CreateRun, create_run, record_run_execution, record_run_verification,
  record_run_review, approve_run, reject_run, record_draft_pull_request, record_merge,
  approve_task_graph, cancel_run,
}
use basic.Workflow.Run.Intake.{
  RunTransition, finish_run_transition, validate_specification_review, new_run, approve_planning,
}
use basic.Workflow.Run.Completion.{validate_run_human_review}
use basic.Workflow.Run.Apply.{apply_run_command, apply_run}
use basic.Workflow.Run.Decide.{RunPersistenceDecision, decide_run_command}
use basic.Workflow.Run.Inversion.{is_create, decide_cases, approve_planning-PlanAdmitted}
use basic.Workflow.Run.Evidence.{is_executed}
use basic.Workflow.Store.Gates.{is_cancelled_run}
use basic.Workflow.Store.Sound.{is_started}

-- The commands that need every task accepted.
abbrev pub needs_accepted : RunCommand → Bool
needs_accepted (record_run_execution c) = true
needs_accepted (record_run_verification c) = true
needs_accepted (record_run_review c) = true
needs_accepted (approve_run c) = true
needs_accepted (reject_run c) = true
needs_accepted (record_draft_pull_request c) = true
needs_accepted (record_merge c) = true
needs_accepted _ = false

abbrev pub is_cancel : RunCommand → Bool
is_cancel (cancel_run c) = true
is_cancel _ = false

-- The state that a command on an existing run leads to.
pub record LeadsTo (c : RunCommand) (r r' : Run) : Type 0 where
  pub id : r'.id ≡ r.id
  pub executed : is_executed r'.state ≡ true → needs_accepted c ≡ true
  pub cancelled : is_cancelled_run r'.state ≡ true → is_cancel c ≡ true

-- What a decision plans: tasks of its run, and dependencies whose dependents wait.
pub record Plans (run_id : String) (tasks : List Task) (deps : List TaskDependency) : Type 0 where
  pub of_run : All (λ (t : Task). t.run_id ≡ run_id) tasks
  pub waits :
      (e : TaskDependency)
      → In e deps
      → (t : Task) × In t tasks × (t.id ≡ e.task_id) × (is_started t.state ≡ false)

Together-of_run :
    (run_id : String) (all : List TaskDependency) (defs : List TaskDefinition) (tasks : List Task)
    → Together (Planned run_id all) defs tasks
    → All (λ (t : Task). t.run_id ≡ run_id) tasks
Together-of_run run_id all defs tasks nil = tt
Together-of_run run_id all (d ∷ defs) (t ∷ tasks) (cons p rest) =
    (p.run, Together-of_run run_id all defs tasks rest)

-- The planned task of an identifier that the definitions have.
Together-In :
    (run_id : String) (all : List TaskDependency) (defs : List TaskDefinition) (tasks : List Task)
    (j : String)
    → Together (Planned run_id all) defs tasks
    → 0 < occ (map (λ d. d.id) defs) j
    → (d : TaskDefinition) × (t : Task) × In t tasks × (d.id ≡ j) × Planned run_id all d t
unfolding occ
Together-In run_id all defs tasks j nil h = absurd (omega arith)
Together-In run_id all (d ∷ defs) (t ∷ tasks) j (cons p rest) h =
    elim (Bool-cases (str_eq d.id j)) [
      | inl e ↦ (d, t, inl refl, (eq_iff d.id j).0 e, p)
      | inr e ↦
          let (d', t', i, same, q) = Together-In run_id all defs tasks j rest (ground arith) in
          (d', t', inr i, same, q)
    ]

-- A task with an edge has a prerequisite.
unmet-pos :
    (deps : List TaskDependency) (e : TaskDependency)
    → In e deps
    → 0 < unmet (has []) deps e.task_id
unfolding unmet has
unmet-pos [] e i = elim i [ ]
unmet-pos (d ∷ deps) e (inl same) =
    ground (arith, eq_iff d.task_id e.task_id, ap (λ x. x.task_id) same)
unmet-pos (d ∷ deps) e (inr i) = ground (arith, unmet-pos deps e i)

All-In : {A : Type 0} (P : A → Type 0) (xs : List A) (x : A) → All P xs → In x xs → P x
All-In P [] x h i = elim i [ ]
All-In P (y ∷ xs) x h (inl e) = subst P (sym e) h.0
All-In P (y ∷ xs) x h (inr i) = All-In P xs x h.1 i

Accepted-Plans :
    (run_id : String) (defs : List TaskDefinition) (deps : List TaskDependency) (tasks : List Task)
    (kept : List TaskDependency) (events : List Event)
    → Accepted run_id defs deps tasks kept events
    → Plans run_id tasks kept
Accepted-Plans run_id defs deps tasks kept events v = record {
  of_run = Together-of_run run_id deps defs tasks v.planned;
  waits = λ e i.
      let j = subst (In e) v.kept_all i in
      let known = (All-In _ deps e v.checked j).0 in
      let (d, t, there, same, p) = Together-In run_id deps defs tasks e.task_id v.planned known in
      let edge = unmet-pos deps e j in
      (t, there, p.id ∙ same, waiting deps d t e p.state same edge);
}
  where
    waiting :
        (deps : List TaskDependency) (d : TaskDefinition) (t : Task) (e : TaskDependency)
        → t.state ≡ (if prerequisites deps d.id == 0 then TaskState.ready else TaskState.pending)
        → d.id ≡ e.task_id
        → 0 < prerequisites deps e.task_id
        → is_started t.state ≡ false
    waiting deps d t e s same edge = ground (arith, ap (prerequisites deps) same)

new_run_draft :
    (env : Env) (c : CreateRun) {r : Run} {es : List Event}
    → new_run env c ≡ ok (r, es)
    → (r.id ≡ c.id) × (r.state ≡ RunState.draft)
unfolding new_run
new_run_draft env c h = ground arith

module _ (env : Env) where
  apply_run_command-LeadsTo :
      (r : Run) (c : RunCommand) {tr : RunTransition}
      → is_terminal_run r.state ≡ false
      → apply_run_command env r c ≡ ok tr
      → LeadsTo c r tr.next
  unfolding apply_run_command validate_specification_review validate_run_human_review
      is_terminal_run
  apply_run_command-LeadsTo r (create_run c) l h = cc
  apply_run_command-LeadsTo r c l h = ground arith

  pub decide-LeadsTo :
      (r : Run) (c : RunCommand) {d : RunPersistenceDecision}
      → is_create c ≡ false
      → decide_run_command env r c ≡ ok d
      → LeadsTo c r d.next
  unfolding finish_run_transition
  decide-LeadsTo r c n h =
      decide_cases env r c (LeadsTo c r) n h
        (λ tr a e. let w = apply_run_command-LeadsTo r c a.live e in ground arith)
        (λ a planned s p. record { id = refl; executed = λ e. cc; cancelled = λ e. cc })

  pub decide-current :
      (r : Run) (c : RunCommand) {d : RunPersistenceDecision}
      → decide_run_command env r c ≡ ok d
      → d.current ≡ r
  unfolding decide_run_command
  decide-current r (create_run c) h =
      let (p, e, f) = >>=-eq-ok (new_run env c) _ h in ap (λ x. x.current) (sym (ok-injective f))
  decide-current r (approve_task_graph c) h =
      let (p, e, f) = >>=-eq-ok (approve_planning env r c) _ h in
      ap (λ x. x.current) (sym (ok-injective f))
  decide-current r c h =
      let (p, e, f) = >>=-eq-ok (apply_run env r c) _ h in
      ap (λ x. x.current) (sym (ok-injective f))

  -- A created run is a draft with the command's identifier, and plans nothing.
  pub decide_create :
      (r : Run) (c : CreateRun) {d : RunPersistenceDecision}
      → decide_run_command env r (create_run c) ≡ ok d
      → (d.next.id ≡ c.id)
        × (d.next.state ≡ RunState.draft)
        × (d.tasks ≡ [])
        × (d.dependencies ≡ [])
  unfolding decide_run_command
  decide_create r c h =
      let (p, e, f) = >>=-eq-ok (new_run env c) _ h in
      let (id, draft) = new_run_draft env c e in
      (
        ap (λ x. x.next.id) (sym (ok-injective f)) ∙ id,
        ap (λ x. x.next.state) (sym (ok-injective f)) ∙ draft,
        ap (λ x. x.tasks) (sym (ok-injective f)),
        ap (λ x. x.dependencies) (sym (ok-injective f)),
      )

  -- A command plans nothing, or approves the task graph of a run under plan review.
  pub decide-Plans :
      (r : Run) (c : RunCommand) {d : RunPersistenceDecision}
      → RangesOnce env
      → decide_run_command env r c ≡ ok d
      → ((needs_accepted c ≡ false)
          × (is_cancel c ≡ false)
          × (r.state ≡ RunState.task_plan_review)
          × Plans r.id d.tasks d.dependencies)
        ⊎ ((d.tasks ≡ []) × (d.dependencies ≡ []))
  unfolding decide_run_command
  decide-Plans r (create_run c) once h = let made = decide_create r c h in inr (made.2, made.3)
  decide-Plans r (approve_task_graph c) once h =
      let (p, e, f) = >>=-eq-ok (approve_planning env r c) _ h in
      let (planned, v, g) = approve_planning-PlanAdmitted env r c e in
      let accepted =
        new_planned_tasks-Accepted env r.id c.tasks c.dependencies c.meta once v.accepted in
      let plans =
        Accepted-Plans r.id c.tasks c.dependencies planned.0 planned.1 planned.2 accepted in
      let tasks = ap (λ x. x.tasks) (sym g) ∙ ap (λ x. x.tasks) (ok-injective f) in
      let deps = ap (λ x. x.dependencies) (sym g) ∙ ap (λ x. x.dependencies) (ok-injective f) in
      inl (refl, refl, v.in_review, subst₂ (Plans r.id) tasks deps plans)
  decide-Plans r c once h =
      let (p, e, f) = >>=-eq-ok (apply_run env r c) _ h in
      inr
        (ap (λ x. x.tasks) (sym (ok-injective f)), ap (λ x. x.dependencies) (sym (ok-injective f)))
