-- ===== src/Workflow/Store/Sound/Ready.antt =====
-- The tasks that become ready when their last prerequisite is accepted keep the invariant.
use basic.Base.{
  ◌≡◌, refl, sym, subst, ap, ◌∙◌, String, true, false, List, [], ◌∷◌, ok, ok-injective, arith, inl,
  inr, Bool-cases, eq_iff, ◌==◌, ==_iff,
}
use basic.Base.Table.{In, count_rows, count_rows-zero}
use basic.Workflow.Types.{Env, Event, CommandEnvelope, TaskState, is_terminal_task}
use basic.Workflow.Task.Model.{Task}
use basic.Workflow.Task.States.{is_pending, is_accepted}
use basic.Workflow.Store.Rows.{TaskRow}
use basic.Workflow.Store.Tables.{DependencyRow, Tables, Backend, LockedTask}
use basic.Workflow.Store.Records.{is_task}
use basic.Workflow.Store.Dependents.{
  unmet_of, count_unmet, pending_at, readied, ready_dependent, ready_candidate, ready_candidates,
}
use basic.Workflow.Store.Sound.{Sound, update_tasks-Sound, IsPrerequisite}
use basic.Workflow.Store.Steps.{tx->>=-eq-ok, tx->>-eq-ok}

pub accepted_terminal : (s : TaskState) → is_accepted s ≡ true → is_terminal_task s ≡ true
unfolding is_terminal_task
accepted_terminal s h = ground arith

pending_live : (s : TaskState) → is_pending s ≡ true → is_terminal_task s ≡ false
unfolding is_terminal_task
pending_live s h = ground arith

-- No prerequisite is counted as unmet: all are accepted.
pub count_unmet-zero :
    (run_id id : String) (deps : List DependencyRow) (tasks : List TaskRow)
    → count_unmet run_id id deps tasks ≡ 0
    → (d : DependencyRow) (p : TaskRow) → In d deps
    → In p tasks
    → d.run_id ≡ run_id
    → d.task_id ≡ id
    → IsPrerequisite d p
    → is_accepted p.state ≡ true
unfolding count_unmet
count_unmet-zero run_id id [] tasks h d p i j r t q = elim i [ ]
count_unmet-zero run_id id (e ∷ deps) tasks h d p (inl same) j r t q =
    let none_unmet =
      count_rows-zero (unmet_of e) tasks p
        (ground (
          arith,
          eq_iff e.run_id run_id,
          eq_iff e.task_id id,
          ap (λ x. x.run_id) same,
          ap (λ x. x.task_id) same,
        ))
        j in
    ground (
      arith,
      eq_iff p.run_id e.run_id,
      eq_iff p.task_id e.depends_on_task_id,
      ap (λ x. x.run_id) same,
      ap (λ x. x.depends_on_task_id) same,
    )
count_unmet-zero run_id id (e ∷ deps) tasks h d p (inr i) j r t q =
    count_unmet-zero run_id id deps tasks (omega arith) d p i j r t q

-- A row that a test of identifiers finds.
pub is_task-eq :
    (run_id id : String) (t : TaskRow)
    → is_task run_id id t ≡ true
    → (t.run_id ≡ run_id) × (t.task_id ≡ id)
is_task-eq run_id id t h = ground (arith, eq_iff t.run_id run_id, eq_iff t.task_id id)

module _ (env : Env) (b : Backend) (meta : CommandEnvelope) where
  pending_at-eq :
      (run_id : String) (c : LockedTask) (t : TaskRow)
      → pending_at env b meta run_id c t ≡ true
      → (t.run_id ≡ run_id) × (t.task_id ≡ c.id)
  pending_at-eq run_id c t h = ground (arith, eq_iff t.run_id run_id, eq_iff t.task_id c.id)

  ready_dependent-Sound :
      (run_id : String) (c : LockedTask) (db : Tables) {db' : Tables}
      → count_unmet run_id c.id db.dependencies db.tasks ≡ 0
      → ready_dependent env b meta run_id c db ≡ ok (tt, db')
      → Sound db
      → Sound db'
  unfolding ready_dependent
  ready_dependent-Sound run_id c db met h v =
      let test = pending_at env b meta run_id c in
      elim (Bool-cases (count_rows test db.tasks == 1)) [
        | inl e ↦ subst Sound (ap (λ p. p.1) (ok-injective (rw (e, ready_dependent) at h))) (
            update_tasks-Sound v test (readied env b meta) (record {
              keeps_id = λ t. refl;
              keeps_run = λ t. refl;
              keeps_accepted =
                  λ t i p a. ground (arith, pending_live t.state, accepted_terminal t.state);
              keeps_terminal = λ t i p a. ground (arith, pending_live t.state);
              starts = λ t i p s. inr (λ d q di qi td qd.
                  let (r, n) = pending_at-eq run_id c t p in
                  count_unmet-zero run_id c.id db.dependencies db.tasks met d q di qi (sym td.0 ∙ r)
                    (sym td.1 ∙ n) qd);
            }))
        | inr e ↦ absurd (cc (rw (e, ready_dependent) at h))
      ]

  ready_candidate-Sound :
      (accepted : Task) (c : LockedTask) (db : Tables) {es : List Event} {db' : Tables}
      → ready_candidate env b meta accepted c db ≡ ok (es, db')
      → Sound db
      → Sound db'
  unfolding ready_candidate
  ready_candidate-Sound accepted c db h v =
      let unmet = count_unmet (b.columns.uuid accepted.run_id) c.id db.dependencies db.tasks in
      elim (Bool-cases (unmet == 0)) [
        | inl e ↦
            let (db1, h1, h2) =
              tx->>-eq-ok (ready_dependent env b meta (b.columns.uuid accepted.run_id) c) _
                (rw (e, ready_candidate) at h) in
            subst Sound (ap (λ p. p.1) (ok-injective h2)) (
              ready_dependent-Sound (b.columns.uuid accepted.run_id) c db ((==_iff unmet 0).0 e) h1
                v)
        | inr e ↦ subst Sound (ap (λ p. p.1) (ok-injective (rw (e, ready_candidate) at h))) v
      ]

  pub ready_candidates-Sound :
      (accepted : Task) (cs : List LockedTask) (db : Tables) {es : List Event} {db' : Tables}
      → ready_candidates env b meta accepted cs db ≡ ok (es, db')
      → Sound db
      → Sound db'
  unfolding ready_candidates
  ready_candidates-Sound accepted [] db h v = subst Sound (ap (λ p. p.1) (ok-injective h)) v
  ready_candidates-Sound accepted (c ∷ cs) db h v =
      let (e1, db1, h1, k1) = tx->>=-eq-ok (ready_candidate env b meta accepted c) _ h in
      let (e2, db2, h2, k2) = tx->>=-eq-ok (ready_candidates env b meta accepted cs) _ k1 in
      subst Sound (ap (λ p. p.1) (ok-injective k2))
        (ready_candidates-Sound accepted cs db1 h2 (ready_candidate-Sound accepted c db h1 v))
