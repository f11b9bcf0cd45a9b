-- ===== src/Workflow/Store/Sound/Changes.antt =====
-- The other changes of the tables that keep the invariant: a run that is inserted or updated, a
-- task that is inserted, and a dependency that is inserted.
use basic.Base.{
  ◌≡◌, refl, sym, subst, ◌∙◌, ap, Bool, true, false, String, List, [], ◌∷◌, ◌++◌, ◌⊎◌, inl, inr,
  if◌then◌else◌, Bool-cases,
}
use basic.Base.Table.{In, In-append, append-In_left, update_rows, update_rows-cases, In-update_rows}
use basic.Workflow.Run.Evidence.{is_executed}
use basic.Workflow.Store.Rows.{TaskRow, RunRow}
use basic.Workflow.Store.Tables.{DependencyRow}
use basic.Workflow.Store.Gates.{is_cancelled_run}
use basic.Workflow.Store.Sound.{
  SoundTables, is_started, IsDependent, IsPrerequisite, IsDone, IsOver,
}

-- A row at the end of a table is an old one or the new one.
last-cases : {A : Type 0} (x y : A) (xs : List A) → In x (xs ++ y ∷ []) → In x xs ⊎ (x ≡ y)
last-cases x y xs h = elim (In-append x xs (y ∷ []) h) [
  | inl i ↦ inl i
  | inr (inl e) ↦ inr e
  | inr (inr e) ↦ absurd e
]

-- Keys stay unique when a row with a new key is inserted.
unique-insert :
    {A : Type 0} (key : A → String) (y : A) (xs : List A)
    → ((t u : A) → In t xs → In u xs → key t ≡ key u → t ≡ u)
    → ((t : A) → In t xs → ¬ (key t ≡ key y))
    → (t u : A) → In t (xs ++ y ∷ [])
    → In u (xs ++ y ∷ [])
    → key t ≡ key u
    → t ≡ u
unique-insert key y xs old new t u i j e = elim (last-cases t y xs i) [
  | inl ti ↦ elim (last-cases u y xs j) [
    | inl uj ↦ old t u ti uj e
    | inr ue ↦ absurd (new t ti (e ∙ ap key ue))
  ]
  | inr te ↦ elim (last-cases u y xs j) [
    | inl uj ↦ absurd (new u uj (sym e ∙ ap key te))
    | inr ue ↦ te ∙ sym ue
  ]
]

module _ {runs : List RunRow} {tasks : List TaskRow} {deps : List DependencyRow}
    (v : SoundTables runs tasks deps) where
  -- A run with a new identifier, which is not executed and not cancelled.
  pub insert_run-Sound :
      (r : RunRow)
      → ((q : RunRow) → In q runs → ¬ (q.run_id ≡ r.run_id))
      → is_executed r.state ≡ false
      → is_cancelled_run r.state ≡ false
      → SoundTables (runs ++ r ∷ []) tasks deps
  insert_run-Sound r new ne nc = record {
    unique_runs = unique-insert (λ q. q.run_id) r runs v.unique_runs new;
    unique_tasks = v.unique_tasks;
    linked = v.linked;
    ordered = v.ordered;
    done = λ q i e. elim (last-cases q r runs i) [
      | inl old ↦ v.done q old e
      | inr same ↦ absurd (cc (same, ne, e))
    ];
    over = λ q i e. elim (last-cases q r runs i) [
      | inl old ↦ v.over q old e
      | inr same ↦ absurd (cc (same, nc, e))
    ];
  }

  -- A run that is updated and keeps its identifier: it is executed only where its tasks are done,
  -- and cancelled only where they are over.
  pub update_run-Sound :
      (p : RunRow → Bool) (f : RunRow → RunRow)
      → ((r : RunRow) → (f r).run_id ≡ r.run_id)
      → ((r : RunRow) → In r runs → p r ≡ true → is_executed (f r).state ≡ true → IsDone tasks r)
      → ((r : RunRow)
          → In r runs
          → p r ≡ true
          → is_cancelled_run (f r).state ≡ true
          → IsOver tasks r)
      → SoundTables (update_rows p f runs) tasks deps
  update_run-Sound p f id executed cancelled = record {
    unique_runs = λ r q i j e.
        let (x, xi, xe) = In-update_rows p f runs r i in
        let (y, yj, ye) = In-update_rows p f runs q j in
        let same = v.unique_runs x y xi yj (
          sym (changed_id x)
          ∙ ap (λ z. z.run_id) (sym xe)
          ∙ e
          ∙ ap (λ z. z.run_id) ye
          ∙ changed_id y) in
        xe ∙ ap (λ z. if p z then f z else z) same ∙ sym ye;
    unique_tasks = v.unique_tasks;
    linked = v.linked;
    ordered = v.ordered;
    done = λ r i e.
        let (x, xi, c) = update_rows-cases p f runs r i in
        elim c [
          | inl (t, s) ↦
              subst (λ z. IsDone tasks z) (sym s) (move_done x (executed x xi t (cc (s, e))))
          | inr s ↦ subst (λ z. IsDone tasks z) (sym s) (v.done x xi (cc (s, e)))
        ];
    over = λ r i e.
        let (x, xi, c) = update_rows-cases p f runs r i in
        elim c [
          | inl (t, s) ↦
              subst (λ z. IsOver tasks z) (sym s)
                (λ u j h. cancelled x xi t (cc (s, e)) u j (h ∙ id x))
          | inr s ↦ subst (λ z. IsOver tasks z) (sym s) (v.over x xi (cc (s, e)))
        ];
  }
    where
      changed_id : (x : RunRow) → (if p x then f x else x).run_id ≡ x.run_id
      changed_id x = elim (Bool-cases (p x)) [ inl t ↦ rw t (id x) | inr t ↦ rw t refl ]

      move_done : (x : RunRow) → IsDone tasks x → IsDone tasks (f x)
      move_done x (all, (t, i, e)) = (λ u j h. all u j (h ∙ id x), (t, i, e ∙ sym (id x)))

  -- A task with a new identifier, in a run that is neither executed nor cancelled.
  pub insert_task-Sound :
      (t : TaskRow)
      → ((u : TaskRow) → In u tasks → ¬ (u.task_id ≡ t.task_id))
      → ((r : RunRow)
          → In r runs
          → t.run_id ≡ r.run_id
          → (is_executed r.state ≡ false) × (is_cancelled_run r.state ≡ false))
      → SoundTables runs (tasks ++ t ∷ []) deps
  insert_task-Sound t new idle = record {
    unique_runs = v.unique_runs;
    unique_tasks = unique-insert (λ u. u.task_id) t tasks v.unique_tasks new;
    linked = λ d i.
        let ((x, xi, xd), (y, yi, yd)) = v.linked d i in
        ((x, append-In_left x tasks (t ∷ []) xi, xd), (y, append-In_left y tasks (t ∷ []) yi, yd));
    ordered = λ x i s d y di yi xd yd.
        let ((a, ai, ad), (b, bi, bd)) = v.linked d di in
        elim (last-cases x t tasks i) [
          | inl xo ↦ elim (last-cases y t tasks yi) [
            | inl yo ↦ v.ordered x xo s d y di yo xd yd
            | inr same ↦ absurd (new b bi (bd.1 ∙ sym yd.1 ∙ ap (λ z. z.task_id) same))
          ]
          | inr same ↦ absurd (new a ai (ad.1 ∙ sym xd.1 ∙ ap (λ z. z.task_id) same))
        ];
    done = λ r i e.
        let (all, (x, xi, xe)) = v.done r i e in
        (
          λ u j h. elim (last-cases u t tasks j) [
            | inl old ↦ all u old h
            | inr same ↦ absurd (cc (e, (idle r i (sym (ap (λ z. z.run_id) same) ∙ h)).0))
          ],
          (x, append-In_left x tasks (t ∷ []) xi, xe),
        );
    over = λ r i e u j h. elim (last-cases u t tasks j) [
      | inl old ↦ v.over r i e u old h
      | inr same ↦ absurd (cc (e, (idle r i (sym (ap (λ z. z.run_id) same) ∙ h)).1))
    ];
  }

  -- A dependency of two tasks that are there, of which the dependent is not started.
  pub insert_dependency-Sound :
      (d : DependencyRow)
      → ((t : TaskRow) × In t tasks × IsDependent d t)
      → ((p : TaskRow) × In p tasks × IsPrerequisite d p)
      → ((t : TaskRow) → In t tasks → IsDependent d t → is_started t.state ≡ false)
      → SoundTables runs tasks (deps ++ d ∷ [])
  insert_dependency-Sound d dependent prerequisite waits = record {
    unique_runs = v.unique_runs;
    unique_tasks = v.unique_tasks;
    linked = λ e i. elim (last-cases e d deps i) [
      | inl old ↦ v.linked e old
      | inr same ↦
          subst
            (λ x.
              ((t : TaskRow) × In t tasks × IsDependent x t)
              × ((p : TaskRow) × In p tasks × IsPrerequisite x p))
            (sym same) (dependent, prerequisite)
    ];
    ordered = λ t i s e p ei pi td pd. elim (last-cases e d deps ei) [
      | inl old ↦ v.ordered t i s e p old pi td pd
      | inr same ↦ absurd (cc (s, waits t i (subst (λ x. IsDependent x t) same td)))
    ];
    done = v.done;
    over = v.over;
  }
