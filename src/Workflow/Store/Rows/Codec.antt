-- ===== src/Workflow/Store/Rows/Codec.antt =====
-- A row read back: what was written, as the columns keep it.
use basic.Base.{
  ◌≤◌, ◌≡◌, refl, String, Option, none, some, ok, >>=-eq-ok, >>-eq-ok, ◌∙◌, arith, str_eq, eq_iff,
  if◌then◌else◌,
}
use mathlib.Core.Option
use basic.Workflow.Types.{Env, ArtifactRef}
use basic.Workflow.Task.Model.{LeaseRef, Task, validate_task}
use basic.Workflow.Run.Model.{Run, validate_run}
use basic.Workflow.Store.Rows.{
  TaskRow, RunRow, Columns, raised, decode_run_lifecycle, task_row, scan_task, scan_run, read_task,
  read_run, apply_lease, optional_artifact, commit_of,
}

commit_of_lem : (c : String) → commit_of (if str_eq c "" then none else some c) ≡ c
commit_of_lem c = ground (arith, eq_iff c "")

module _ (col : Columns) where
  abbrev pub stored_lease : LeaseRef → LeaseRef
  stored_lease l = record l {
    id = col.uuid l.id;
    owner_id = col.uuid l.owner_id;
    expires_at = col.time l.expires_at;
  }

  -- A task with its times and identifiers as the database keeps them.
  abbrev pub stored_task : Task → Task
  stored_task t = record t {
    id = col.uuid t.id;
    run_id = col.uuid t.run_id;
    lease = Option.map stored_lease t.lease;
    created_at = col.time t.created_at;
    updated_at = col.time t.updated_at;
  }

  -- A fencing token that a lease can carry.
  abbrev pub FencesFit : Option LeaseRef → Type 0
  FencesFit none = Unit
  FencesFit (some l) = (1 ≤ l.fencing_token) × (l.fencing_token ≤ 4294967295)

  optional_artifact_lem :
      (a : Option ArtifactRef)
      → optional_artifact (Option.map (λ x. x.uri) a) (Option.map (λ x. x.digest) a) ≡ ok a
  unfolding optional_artifact
  optional_artifact_lem none = refl
  optional_artifact_lem (some a) = refl

  apply_lease_lem :
      (l : Option LeaseRef)
      → FencesFit l
      → apply_lease
          (Option.map (λ x. col.uuid x.id) l)
          (Option.map (λ x. col.uuid x.owner_id) l)
          (Option.map (λ x. col.time x.expires_at) l)
          (Option.map (λ x. x.fencing_token) l)
        ≡ ok (Option.map stored_lease l)
  unfolding apply_lease
  apply_lease_lem none h = refl
  apply_lease_lem (some l) h = ground arith

  -- A task that is written and read back is the same but for its times and for the spelling of its
  -- identifiers and those of its lease, which are as the columns keep them. The condition is that its
  -- lease, if it has one, has a token from 1 to 2^32 - 1.
  pub scan_task-task_row :
      (t : Task) → FencesFit t.lease → scan_task (task_row col t) ≡ ok (stored_task t)
  unfolding scan_task task_row
  scan_task-task_row t h =
      rw
        (
          apply_lease_lem t.lease h,
          optional_artifact_lem t.proposal,
          optional_artifact_lem t.execution,
          optional_artifact_lem t.verification,
          optional_artifact_lem t.review,
          optional_artifact_lem t.approval,
          commit_of_lem t.candidate_commit,
        )
        refl

-- The columns that a scanned task has from its row.
pub record ScannedTask (row : TaskRow) (t : Task) : Type 0 where
  pub id : t.id ≡ row.task_id
  pub run : t.run_id ≡ row.run_id
  pub state : t.state ≡ row.state
  pub revision : t.revision ≡ row.revision

scan_task-ScannedTask : (row : TaskRow) {t : Task} → scan_task row ≡ ok t → ScannedTask row t
unfolding scan_task
scan_task-ScannedTask row h =
    let (_, _, h1) =
      >>=-eq-ok
        (apply_lease row.lease_id row.lease_owner_id row.lease_expires_at row.lease_fencing_token) _
        h in
    let (_, _, h2) = >>=-eq-ok (optional_artifact row.proposal_uri row.proposal_digest) _ h1 in
    let (_, _, h3) = >>=-eq-ok (optional_artifact row.execution_uri row.execution_digest) _ h2 in
    let (_, _, h4) =
      >>=-eq-ok (optional_artifact row.verification_uri row.verification_digest) _ h3 in
    let (_, _, h5) = >>=-eq-ok (optional_artifact row.review_uri row.review_digest) _ h4 in
    let (_, _, h6) = >>=-eq-ok (optional_artifact row.approval_uri row.approval_digest) _ h5 in
    record { id = cc; run = cc; state = cc; revision = cc }

-- A task that is read stands in a row, with the row's columns.
pub read_task-eq-ok :
    (env : Env) (o : Option TaskRow) {t : Task}
    → read_task env o ≡ ok t
    → (row : TaskRow) × (o ≡ some row) × ScannedTask row t
unfolding read_task
read_task-eq-ok env none h = cc
read_task-eq-ok env (some row) h =
    let (t, e, rest) = >>=-eq-ok (scan_task row) _ h in
    let (v, last) = >>-eq-ok (validate_task env t) _ rest in
    (row, refl, scan_task-ScannedTask row (e ∙ last))

pub record ScannedRun (row : RunRow) (r : Run) : Type 0 where
  pub id : r.id ≡ row.run_id
  pub state : r.state ≡ row.state
  pub revision : r.revision ≡ row.revision

scan_run-ScannedRun :
    (col : Columns) (row : RunRow) {r : Run} → scan_run col row ≡ ok r → ScannedRun row r
unfolding scan_run
scan_run-ScannedRun col row h =
    let (_, _, h1) =
      >>=-eq-ok (raised (optional_artifact row.specification_uri row.specification_digest)) _ h in
    let (_, _, h2) =
      >>=-eq-ok (raised (optional_artifact row.task_graph_uri row.task_graph_digest)) _ h1 in
    let (_, _, h3) = >>=-eq-ok (decode_run_lifecycle col row.lifecycle_bindings) _ h2 in
    record { id = cc; state = cc; revision = cc }

pub read_run-eq-ok :
    (col : Columns) (env : Env) (o : Option RunRow) {r : Run}
    → read_run col env o ≡ ok r
    → (row : RunRow) × (o ≡ some row) × ScannedRun row r
unfolding read_run
read_run-eq-ok col env none h = cc
read_run-eq-ok col env (some row) h =
    let (r, e, rest) = >>=-eq-ok (scan_run col row) _ h in
    let (v, last) = >>-eq-ok (raised (validate_run env r)) _ rest in
    (row, refl, scan_run-ScannedRun col row (e ∙ last))
