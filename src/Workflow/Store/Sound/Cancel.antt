-- ===== src/Workflow/Store/Sound/Cancel.antt =====
-- The cancellation of a run's tasks keeps the invariant, and leaves them all over.
use basic.Base.{
  ◌≡◌, refl, sym, subst, ap, ◌∙◌, String, true, false, List, [], ◌∷◌, map, ok, ok-injective, arith,
  ◌⊎◌, inl, inr, Bool-cases, eq_iff,
}
use basic.Base.Table.{
  In, In-map, map-In, select_rows, In-select_rows, select_rows-In, update_rows, In-update_rows,
}
use basic.Workflow.Types.{Env, Event, CommandEnvelope, is_terminal_task}
use basic.Workflow.Task.States.{is_accepted}
use basic.Workflow.Store.Rows.{TaskRow}
use basic.Workflow.Store.Tables.{Tables, Backend, LockedTask}
use basic.Workflow.Store.Records.{is_task}
use basic.Workflow.Store.Dependents.{
  locked, cancelled_row, cancel_locked, is_live_in, cancel_run_tasks,
}
use basic.Workflow.Store.Sound.{Sound, update_tasks-Sound}
use basic.Workflow.Store.Sound.Ready.{accepted_terminal, is_task-eq}
use basic.Workflow.Store.Steps.{tx->>=-eq-ok}

-- A query returns its rows, in some order.
abbrev pub ReturnsRows : Backend → Type 0
ReturnsRows b =
    (rows : List LockedTask) (t : LockedTask)
    → (In t (b.row_order rows) → In t rows) × (In t rows → In t (b.row_order rows))

module _ (env : Env) (b : Backend) (meta : CommandEnvelope) (run_id reason : String) where
  -- What the cancellation has done, from the tables `db`.
  pub record Cancelled (db db' : Tables) : Type 0 where
    pub sound : Sound db'
    pub runs : db'.runs ≡ db.runs
    pub dependencies : db'.dependencies ≡ db.dependencies
    pub over :
        (t : TaskRow)
        → In t db'.tasks
        → t.run_id ≡ b.columns.uuid run_id
        → is_terminal_task t.state ≡ true

  abbrev cancel_one : LockedTask → Tables → Tables
  cancel_one t db = record db {
    tasks = update_rows (is_task (b.columns.uuid run_id) t.id) (cancelled_row env b meta) db.tasks;
  }

  -- None of the rows of the locked tasks is accepted; every task of the run is over or locked.
  abbrev Unaccepted : List LockedTask → Tables → Type 0
  Unaccepted ts db =
      (t : LockedTask) (row : TaskRow)
      → In t ts
      → In row db.tasks
      → is_task (b.columns.uuid run_id) t.id row ≡ true
      → is_accepted row.state ≡ false

  abbrev Covered : List LockedTask → Tables → Type 0
  Covered ts db =
      (row : TaskRow)
      → In row db.tasks
      → row.run_id ≡ b.columns.uuid run_id
      → (is_terminal_task row.state ≡ true) ⊎ ((t : LockedTask) × In t ts × (row.task_id ≡ t.id))

  cancel_one-Sound :
      (t : LockedTask) (ts : List LockedTask) (db : Tables)
      → Unaccepted (t ∷ ts) db
      → Sound db
      → Sound (cancel_one t db)
  unfolding is_terminal_task
  cancel_one-Sound t ts db u v =
      update_tasks-Sound v (is_task (b.columns.uuid run_id) t.id) (cancelled_row env b meta)
        (record {
          keeps_id = λ x. refl;
          keeps_run = λ x. refl;
          keeps_accepted = λ x i p a. absurd (cc (a, u t x (inl refl) i p));
          keeps_terminal = λ x i p a. refl;
          starts = λ x i p a. cc;
        })

  cancel_one-Unaccepted :
      (t : LockedTask) (ts : List LockedTask) (db : Tables)
      → Unaccepted (t ∷ ts) db
      → Unaccepted ts (cancel_one t db)
  cancel_one-Unaccepted t ts db u s row i j m =
      let (x, k, e) =
        In-update_rows (is_task (b.columns.uuid run_id) t.id) (cancelled_row env b meta) db.tasks
          row j in
      elim (Bool-cases (is_task (b.columns.uuid run_id) t.id x)) [
        | inl p ↦ cc (rw p at e)
        | inr p ↦
            let same = rw p at e in
            ap (λ r. is_accepted r.state) same
            ∙ u s x (inr i) k (ap (λ r. is_task (b.columns.uuid run_id) s.id r) (sym same) ∙ m)
      ]

  cancel_one-Covered :
      (t : LockedTask) (ts : List LockedTask) (db : Tables)
      → Covered (t ∷ ts) db
      → Covered ts (cancel_one t db)
  unfolding is_terminal_task
  cancel_one-Covered t ts db c row i of_run =
      let (x, k, e) =
        In-update_rows (is_task (b.columns.uuid run_id) t.id) (cancelled_row env b meta) db.tasks
          row i in
      elim (Bool-cases (is_task (b.columns.uuid run_id) t.id x)) [
        | inl p ↦ inl (ap (λ r. is_terminal_task r.state) (rw p at e))
        | inr p ↦
            let same = rw p at e in
            elim (c x k (ap (λ r. r.run_id) (sym same) ∙ of_run)) [
              | inl over ↦ inl (ap (λ r. is_terminal_task r.state) same ∙ over)
              | inr (s, inl first, id) ↦ absurd (
                  cc (
                    p,
                    is_task_self x (ap (λ r. r.run_id) (sym same) ∙ of_run)
                        (id ∙ ap (λ l. l.id) first),
                  ))
              | inr (s, inr later, id) ↦ inr (s, later, ap (λ r. r.task_id) same ∙ id)
            ]
      ]
    where
      is_task_self :
          (x : TaskRow)
          → x.run_id ≡ b.columns.uuid run_id
          → x.task_id ≡ t.id
          → is_task (b.columns.uuid run_id) t.id x ≡ true
      is_task_self x r n =
          ground (arith, eq_iff x.run_id (b.columns.uuid run_id), eq_iff x.task_id t.id)

  cancel_locked-Cancelled :
      (ts : List LockedTask) (db : Tables) {es : List Event} {db' : Tables}
      → cancel_locked env b meta run_id reason ts db ≡ ok (es, db')
      → Unaccepted ts db
      → Covered ts db
      → Sound db
      → Cancelled db db'
  unfolding cancel_locked
  cancel_locked-Cancelled [] db h u c v =
      subst (Cancelled db) (ap (λ p. p.1) (ok-injective h)) (record {
        sound = v;
        runs = refl;
        dependencies = refl;
        over = λ t i r. elim (c t i r) [ inl over ↦ over | inr (s, i, e) ↦ absurd i ];
      })
  cancel_locked-Cancelled (t ∷ ts) db h u c v =
      let db1 = cancel_one t db in
      let (es, db2, h2, k2) =
        tx->>=-eq-ok (cancel_locked env b meta run_id reason ts) _ {db = db1} h in
      let rest =
        cancel_locked-Cancelled ts db1 h2 (cancel_one-Unaccepted t ts db u)
          (cancel_one-Covered t ts db c) (cancel_one-Sound t ts db u v) in
      subst (Cancelled db) (ap (λ p. p.1) (ok-injective k2)) (record {
        sound = rest.sound;
        runs = rest.runs;
        dependencies = rest.dependencies;
        over = rest.over;
      })

  -- After the cancellation of a run, every task of it is over.
  pub cancel_run_tasks-Cancelled :
      (db : Tables) {es : List Event} {db' : Tables}
      → ReturnsRows b
      → cancel_run_tasks env b meta run_id reason db ≡ ok (es, db')
      → Sound db
      → Cancelled db db'
  unfolding cancel_run_tasks
  cancel_run_tasks-Cancelled db returns h v =
      let live = select_rows (is_live_in env b meta (b.columns.uuid run_id)) db.tasks in
      cancel_locked-Cancelled (b.row_order (map locked live)) db h
        (λ t row i j m.
          let (x, k, e) = map-In locked live t ((returns (map locked live) t).0 i) in
          let (there, alive) =
            In-select_rows (is_live_in env b meta (b.columns.uuid run_id)) db.tasks x k in
          let (r, n) = is_task-eq (b.columns.uuid run_id) t.id row m in
          let same = v.unique_tasks row x j there (n ∙ ap (λ l. l.id) e) in
          ap (λ y. is_accepted y.state) same ∙ live_unaccepted x alive)
        (λ row i r. elim (Bool-cases (is_terminal_task row.state)) [
          | inl over ↦ inl over
          | inr alive ↦ inr (
            locked row,
            (returns (map locked live) (locked row)).1 (
                In-map locked live row (
                  select_rows-In (is_live_in env b meta (b.columns.uuid run_id)) db.tasks row i
                    (live_in row r alive))),
            refl,
          )
        ])
        v
    where
      live_unaccepted :
          (x : TaskRow)
          → is_live_in env b meta (b.columns.uuid run_id) x ≡ true
          → is_accepted x.state ≡ false
      live_unaccepted x h = ground (arith, accepted_terminal x.state)

      live_in :
          (x : TaskRow)
          → x.run_id ≡ b.columns.uuid run_id
          → is_terminal_task x.state ≡ false
          → is_live_in env b meta (b.columns.uuid run_id) x ≡ true
      live_in x r a = ground (arith, eq_iff x.run_id (b.columns.uuid run_id))
