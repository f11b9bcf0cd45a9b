-- ===== src/Workflow/Store/Kept.antt =====
-- The statements between the reservation of a command and the record of its result leave the
-- commands as they are.
use basic.Base.{
  ◌≡◌, sym, ap, ◌∙◌, ℕ, String, List, [], ◌∷◌, ok, ok-injective, arith, ◌++◌, inl, inr, Bool-cases,
  ◌==◌,
}
use basic.Workflow.Types.{Env, Event, CommandEnvelope}
use basic.Workflow.Task.Model.{Task}
use basic.Workflow.Task.States.{is_accepted}
use basic.Workflow.Task.Command.{TaskCommand, envelope as task_envelope}
use basic.Workflow.Plan.Graph.{TaskDependency}
use basic.Workflow.Run.Model.{Run}
use basic.Workflow.Run.Command.{RunCommand, create_run}
use basic.Workflow.Store.Rows.{Columns}
use basic.Workflow.Store.Tables.{
  CommandRow, DependencyRow, Tables, Store, Backend, LockedTask, FaultPoint, Tx, ◌>>=◌, ◌>>◌, pure,
  fault,
}
use basic.Workflow.Store.Records.{
  insert_run, update_run, insert_task, insert_tasks, update_task, insert_event, insert_events,
  insert_dependency, insert_dependencies, dependency_row,
}
use basic.Workflow.Store.Dependents.{
  ready_dependent, ready_candidate, ready_candidates, make_dependents_ready, count_unmet,
}
use basic.Workflow.Store.Execute.{save_run, ready_events}
use basic.Workflow.Store.Steps.{tx->>=-eq-ok, tx->>-eq-ok, fault-eq-ok}

abbrev pub KeepsCommands : {A : Type 0} → Tx A → Type 0
KeepsCommands {A} m =
    (db : Tables) (a : A) (db' : Tables) → m db ≡ ok (a, db') → db'.commands ≡ db.commands

pub >>=-KeepsCommands :
    {A B : Type 0} (m : Tx A) (f : A → Tx B)
    → KeepsCommands m
    → ((a : A) → KeepsCommands (f a))
    → KeepsCommands (m >>= f)
>>=-KeepsCommands m f k l db b db' h =
    let (a, db1, h1, h2) = tx->>=-eq-ok m f h in l a db1 b db' h2 ∙ k db a db1 h1

pub >>-KeepsCommands :
    {A : Type 0} (m : Tx (Unit {0})) (r : Tx A)
    → KeepsCommands m
    → KeepsCommands r
    → KeepsCommands (m >> r)
>>-KeepsCommands m r k l db b db' h =
    let (db1, h1, h2) = tx->>-eq-ok m r h in l db1 b db' h2 ∙ k db tt db1 h1

pub pure-KeepsCommands : {A : Type 0} (a : A) → KeepsCommands (pure a)
pure-KeepsCommands a db b db' h = ap (λ p. p.1.commands) (sym (ok-injective h))

pub fault-KeepsCommands : (s : Store) (point : FaultPoint) → KeepsCommands (fault s point)
fault-KeepsCommands s point db u db' h = ap (λ x. x.commands) (fault-eq-ok s point h)

module _ (col : Columns) where
  insert_event-KeepsCommands : (id : String) (e : Event) → KeepsCommands (insert_event col id e)
  unfolding insert_event
  insert_event-KeepsCommands id e db u db' h = ground arith

  pub insert_events-KeepsCommands :
      (id : String) (es : List Event) → KeepsCommands (insert_events col id es)
  unfolding insert_events
  insert_events-KeepsCommands id [] = pure-KeepsCommands tt
  insert_events-KeepsCommands id (e ∷ es) =
      >>-KeepsCommands (insert_event col id e) (insert_events col id es)
        (insert_event-KeepsCommands id e) (insert_events-KeepsCommands id es)

  insert_task-KeepsCommands : (t : Task) → KeepsCommands (insert_task col t)
  unfolding insert_task
  insert_task-KeepsCommands t db u db' h = ground arith

  pub insert_tasks-KeepsCommands : (ts : List Task) → KeepsCommands (insert_tasks col ts)
  unfolding insert_tasks
  insert_tasks-KeepsCommands [] = pure-KeepsCommands tt
  insert_tasks-KeepsCommands (t ∷ ts) =
      >>-KeepsCommands (insert_task col t) (insert_tasks col ts) (insert_task-KeepsCommands t)
        (insert_tasks-KeepsCommands ts)

  pub update_task-KeepsCommands : (t : Task) (n : ℕ) → KeepsCommands (update_task col t n)
  unfolding update_task
  update_task-KeepsCommands t n db u db' h = ground arith

  insert_run-KeepsCommands : (r : Run) → KeepsCommands (insert_run col r)
  unfolding insert_run
  insert_run-KeepsCommands r db u db' h = ground arith

  update_run-KeepsCommands : (r : Run) (n : ℕ) → KeepsCommands (update_run col r n)
  unfolding update_run
  update_run-KeepsCommands r n db u db' h = ground arith

insert_dependency-KeepsCommands : (d : DependencyRow) → KeepsCommands (insert_dependency d)
unfolding insert_dependency
insert_dependency-KeepsCommands d db u db' h = ground arith

pub insert_dependencies-KeepsCommands :
    (col : Columns) (run_id : String) (ds : List TaskDependency)
    → KeepsCommands (insert_dependencies col run_id ds)
unfolding insert_dependencies
insert_dependencies-KeepsCommands col run_id [] = pure-KeepsCommands tt
insert_dependencies-KeepsCommands col run_id (d ∷ ds) =
    >>-KeepsCommands (insert_dependency (dependency_row col run_id d))
      (insert_dependencies col run_id ds)
      (insert_dependency-KeepsCommands (dependency_row col run_id d))
      (insert_dependencies-KeepsCommands col run_id ds)

module _ (env : Env) (b : Backend) (meta : CommandEnvelope) where
  ready_dependent-KeepsCommands :
      (run_id : String) (c : LockedTask) → KeepsCommands (ready_dependent env b meta run_id c)
  unfolding ready_dependent
  ready_dependent-KeepsCommands run_id c db u db' h = ground arith

  ready_candidate-KeepsCommands :
      (accepted : Task) (c : LockedTask) → KeepsCommands (ready_candidate env b meta accepted c)
  unfolding ready_candidate
  ready_candidate-KeepsCommands accepted c db es db' h =
      elim (Bool-cases
        (count_unmet (b.columns.uuid accepted.run_id) c.id db.dependencies db.tasks == 0)) [
          | inl e ↦
              let (db1, h1, h2) =
                tx->>-eq-ok (ready_dependent env b meta (b.columns.uuid accepted.run_id) c) _
                  (rw (e, ready_candidate) at h) in
              ap (λ p. p.1.commands) (sym (ok-injective h2))
              ∙ ready_dependent-KeepsCommands (b.columns.uuid accepted.run_id) c db tt db1 h1
          | inr e ↦ ap (λ p. p.1.commands) (sym (ok-injective (rw (e, ready_candidate) at h)))
        ]

  ready_candidates-KeepsCommands :
      (accepted : Task) (cs : List LockedTask)
      → KeepsCommands (ready_candidates env b meta accepted cs)
  unfolding ready_candidates
  ready_candidates-KeepsCommands accepted [] = pure-KeepsCommands []
  ready_candidates-KeepsCommands accepted (c ∷ cs) =
      >>=-KeepsCommands (ready_candidate env b meta accepted c) _
        (ready_candidate-KeepsCommands accepted c)
        (λ es.
          >>=-KeepsCommands (ready_candidates env b meta accepted cs) _
            (ready_candidates-KeepsCommands accepted cs) (λ rest. pure-KeepsCommands (es ++ rest)))

  make_dependents_ready-KeepsCommands :
      (accepted : Task) → KeepsCommands (make_dependents_ready env b meta accepted)
  unfolding make_dependents_ready
  make_dependents_ready-KeepsCommands accepted db = ready_candidates-KeepsCommands accepted _ db

module _ (s : Store) (b : Backend) (env : Env) (arrived : List CommandRow) where
  pub save_run-KeepsCommands :
      (c : RunCommand) (r : Run) (n : ℕ) → KeepsCommands (save_run s b env arrived c r n)
  unfolding save_run
  save_run-KeepsCommands (create_run c) r n = insert_run-KeepsCommands b.columns r
  save_run-KeepsCommands c r n = update_run-KeepsCommands b.columns r n

  pub ready_events-KeepsCommands :
      (c : TaskCommand) (t : Task) → KeepsCommands (ready_events s b env arrived c t)
  unfolding ready_events
  ready_events-KeepsCommands c t = elim (Bool-cases (is_accepted t.state)) [
    | inl e ↦ rw e (
        >>=-KeepsCommands (make_dependents_ready env b (task_envelope c) t) _
          (make_dependents_ready-KeepsCommands env b (task_envelope c) t)
          (λ es.
            >>-KeepsCommands (insert_events b.columns (task_envelope c).command_id es) (pure es)
              (insert_events-KeepsCommands b.columns (task_envelope c).command_id es)
              (pure-KeepsCommands es)))
    | inr e ↦ rw e (pure-KeepsCommands [])
  ]
