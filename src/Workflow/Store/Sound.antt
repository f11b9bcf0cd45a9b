-- ===== src/Workflow/Store/Sound.antt =====
-- The invariant of the tables, and how a change of them keeps it.
pub mod Changes
pub mod Ready
pub mod Tasks
pub mod Cancel
pub mod Plans
pub mod Done
pub mod Save
pub mod Prepare
pub mod Runs
pub mod Fresh
pub mod Execution
use basic.Base.{
  ◌≡◌, refl, sym, subst, ◌∙◌, ap, Bool, true, false, not, ◌||◌, List, [], ◌∷◌, ◌++◌, ◌⊎◌, inl, inr,
  arith, if◌then◌else◌, Bool-cases,
}
use basic.Base.Table.{
  In, In-append, append-In_left, append-In_right, update_rows, In-update_rows, update_rows-In,
}
use basic.Workflow.Types.{TaskState, is_terminal_task}
use basic.Workflow.Task.States.{is_pending, is_accepted, is_stopped}
use basic.Workflow.Run.Evidence.{is_executed}
use basic.Workflow.Store.Rows.{TaskRow, RunRow}
use basic.Workflow.Store.Tables.{Tables, DependencyRow}
use basic.Workflow.Store.Gates.{is_cancelled_run}

-- Work on the task has begun or may begin: it waits for nothing and is not given up.
abbrev pub is_started : TaskState → Bool
is_started s = not (is_pending s || is_stopped s)

-- The row is the dependent, or the prerequisite, of a dependency.
abbrev pub IsDependent : DependencyRow → TaskRow → Type 0
IsDependent d t = (t.run_id ≡ d.run_id) × (t.task_id ≡ d.task_id)

abbrev pub IsPrerequisite : DependencyRow → TaskRow → Type 0
IsPrerequisite d t = (t.run_id ≡ d.run_id) × (t.task_id ≡ d.depends_on_task_id)

-- Every prerequisite of a task is accepted.
abbrev pub IsMet : List TaskRow → List DependencyRow → TaskRow → Type 0
IsMet tasks deps t =
    (d : DependencyRow) (p : TaskRow)
    → In d deps
    → In p tasks
    → IsDependent d t
    → IsPrerequisite d p
    → is_accepted p.state ≡ true

-- Every task of a run is accepted, and there is one; every task of it is over.
abbrev pub IsDone : List TaskRow → RunRow → Type 0
IsDone tasks r =
    ((t : TaskRow) → In t tasks → t.run_id ≡ r.run_id → is_accepted t.state ≡ true)
    × ((t : TaskRow) × In t tasks × (t.run_id ≡ r.run_id))

abbrev pub IsOver : List TaskRow → RunRow → Type 0
IsOver tasks r = (t : TaskRow) → In t tasks → t.run_id ≡ r.run_id → is_terminal_task t.state ≡ true

pub record SoundTables (runs : List RunRow) (tasks : List TaskRow) (deps : List DependencyRow)
    : Type 0 where
  pub unique_runs : (r q : RunRow) → In r runs → In q runs → r.run_id ≡ q.run_id → r ≡ q
  pub unique_tasks : (t u : TaskRow) → In t tasks → In u tasks → t.task_id ≡ u.task_id → t ≡ u
  pub linked :
      (d : DependencyRow)
      → In d deps
      → ((t : TaskRow) × In t tasks × IsDependent d t)
        × ((p : TaskRow) × In p tasks × IsPrerequisite d p)
  pub ordered : (t : TaskRow) → In t tasks → is_started t.state ≡ true → IsMet tasks deps t
  pub done : (r : RunRow) → In r runs → is_executed r.state ≡ true → IsDone tasks r
  pub over : (r : RunRow) → In r runs → is_cancelled_run r.state ≡ true → IsOver tasks r

-- Identifiers are unique; a dependency joins two tasks of its run; a started task has all its
-- prerequisites accepted; a run with a candidate has tasks, all accepted; and the tasks of a
-- cancelled run are over.
abbrev pub Sound : Tables → Type 0
Sound db = SoundTables db.runs db.tasks db.dependencies

module _ {runs : List RunRow} {tasks : List TaskRow} {deps : List DependencyRow}
    (v : SoundTables runs tasks deps) where
  -- What an update of tasks must respect.
  pub record Respects (p : TaskRow → Bool) (f : TaskRow → TaskRow) : Type 0 where
    pub keeps_id : (t : TaskRow) → (f t).task_id ≡ t.task_id
    pub keeps_run : (t : TaskRow) → (f t).run_id ≡ t.run_id
    pub keeps_accepted :
        (t : TaskRow)
        → In t tasks
        → p t ≡ true
        → is_accepted t.state ≡ true
        → is_accepted (f t).state ≡ true
    pub keeps_terminal :
        (t : TaskRow)
        → In t tasks
        → p t ≡ true
        → is_terminal_task t.state ≡ true
        → is_terminal_task (f t).state ≡ true
    pub starts :
        (t : TaskRow)
        → In t tasks
        → p t ≡ true
        → is_started (f t).state ≡ true
        → (is_started t.state ≡ true) ⊎ IsMet tasks deps t

  module _ (p : TaskRow → Bool) (f : TaskRow → TaskRow) (k : Respects p f) where
    -- What is known of a row after the update, by the row that it was.
    record Was (y x : TaskRow) : Type 0 where
      there : In x tasks
      id : y.task_id ≡ x.task_id
      run : y.run_id ≡ x.run_id
      accepted : is_accepted x.state ≡ true → is_accepted y.state ≡ true
      terminal : is_terminal_task x.state ≡ true → is_terminal_task y.state ≡ true
      started : is_started y.state ≡ true → (is_started x.state ≡ true) ⊎ IsMet tasks deps x

    earlier_row : (x : TaskRow) → In x tasks → Was (if p x then f x else x) x
    earlier_row x i = elim (Bool-cases (p x)) [
      | inl t ↦ rw t (record {
        there = i;
        id = k.keeps_id x;
        run = k.keeps_run x;
        accepted = k.keeps_accepted x i t;
        terminal = k.keeps_terminal x i t;
        started = k.starts x i t;
      })
      | inr t ↦ rw t (record {
        there = i;
        id = refl;
        run = refl;
        accepted = λ a. a;
        terminal = λ a. a;
        started = λ a. inl a;
      })
    ]

    was :
        (y : TaskRow)
        → In y (update_rows p f tasks)
        → (x : TaskRow) × Was y x × (y ≡ (if p x then f x else x))
    was y h =
        let (x, i, e) = In-update_rows p f tasks y h in
        (x, subst (λ z. Was z x) (sym e) (earlier_row x i), e)

    now : (x : TaskRow) → In x tasks → (y : TaskRow) × In y (update_rows p f tasks) × Was y x
    now x i = ((if p x then f x else x), update_rows-In p f tasks x i, earlier_row x i)

    accepted_now : (t x : TaskRow) → Was t x → is_started t.state ≡ true → IsMet tasks deps x
    accepted_now t x w s = elim (w.started s) [ inl old ↦ v.ordered x w.there old | inr met ↦ met ]

    -- Such an update keeps the invariant.
    pub update_tasks-Sound : SoundTables runs (update_rows p f tasks) deps
    update_tasks-Sound = record {
      unique_runs = v.unique_runs;
      unique_tasks = λ t u i j e.
          let (x, w, c) = was t i in
          let (y, z, g) = was u j in
          let same = v.unique_tasks x y w.there z.there (sym w.id ∙ e ∙ z.id) in
          c ∙ ap (λ r. if p r then f r else r) same ∙ sym g;
      linked = λ d i.
          let ((t, it, dt), (q, iq, dq)) = v.linked d i in
          let (t', it', wt) = now t it in
          let (q', iq', wq) = now q iq in
          ((t', it', (wt.run ∙ dt.0, wt.id ∙ dt.1)), (q', iq', (wq.run ∙ dq.0, wq.id ∙ dq.1)));
      ordered = λ t i s d q id iq dt dq.
          let (x, w, _) = was t i in
          let (y, z, _) = was q iq in
          z.accepted (
            accepted_now t x w s d y id z.there (sym w.run ∙ dt.0, sym w.id ∙ dt.1)
              (sym z.run ∙ dq.0, sym z.id ∙ dq.1));
      done = λ r i e.
          let (all, (t, it, rt)) = v.done r i e in
          let (t', it', wt) = now t it in
          (
            λ u j same. let (x, w, _) = was u j in w.accepted (all x w.there (sym w.run ∙ same)),
            (t', it', wt.run ∙ rt),
          );
      over = λ r i e u j same.
          let (x, w, _) = was u j in w.terminal (v.over r i e x w.there (sym w.run ∙ same));
    }
