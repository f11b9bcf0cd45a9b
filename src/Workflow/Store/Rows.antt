-- ===== src/Workflow/Store/Rows.antt =====
-- The rows of the tables of runs and tasks, and how go/internal/workflow/store.go writes and reads
-- them. A nullable column is an option. A row holds what its columns give back: `Columns` says what a
-- column keeps of a value.
pub mod Codec
use basic.Base.{
  ◌≡◌, ℕ, String, ◌||◌, Option, none, some, Result, ok, err, ◌>>=◌, ◌>>◌, fail_if, str_eq, ltb,
  if◌then◌else◌,
}
use mathlib.Core.Option
use basic.Workflow.Types.{Err, invalid, not_found, Env, RunState, TaskState, ArtifactRef}
use basic.Workflow.Task.Model.{LeaseRef, Task, validate_task}
use basic.Workflow.Run.Model.{Run, validate_run}

pub record TaskRow : Type 0 where
  pub task_id : String
  pub run_id : String
  pub state : TaskState
  pub revision : ℕ
  pub max_attempts : ℕ
  pub current_attempt : ℕ
  pub lease_id : Option String
  pub lease_owner_id : Option String
  pub lease_expires_at : Option ℕ
  pub lease_fencing_token : Option ℕ
  pub proposal_uri : Option String
  pub proposal_digest : Option String
  pub execution_uri : Option String
  pub execution_digest : Option String
  pub candidate_commit : Option String
  pub verification_uri : Option String
  pub verification_digest : Option String
  pub review_uri : Option String
  pub review_digest : Option String
  pub approval_uri : Option String
  pub approval_digest : Option String
  pub created_at : ℕ
  pub updated_at : ℕ

pub record RunLifecycleBindings : Type 0 where
  pub execution : Option ArtifactRef
  pub candidate_commit : String
  pub verification : Option ArtifactRef
  pub review : Option ArtifactRef
  pub approval : Option ArtifactRef
  pub publication : Option ArtifactRef
  pub merge : Option ArtifactRef

pub record RunRow : Type 0 where
  pub run_id : String
  pub state : RunState
  pub revision : ℕ
  pub specification_uri : Option String
  pub specification_digest : Option String
  pub task_graph_uri : Option String
  pub task_graph_digest : Option String
  pub lifecycle_bindings : String
  pub created_at : ℕ
  pub updated_at : ℕ

-- What a `timestamptz` keeps of a time, a `uuid` of an identifier's spelling, and a `jsonb` of a
-- text, if it takes it; and `json.Marshal` and `json.Unmarshal` at `runLifecycleBindings`.
pub record Columns : Type 0 where
  pub time : ℕ → ℕ
  pub uuid : String → String
  pub jsonb : String → Option String
  pub marshal : RunLifecycleBindings → Option String
  pub unmarshal : String → Option RunLifecycleBindings

-- A sentinel, `errReplayAfterConflict`, a broken constraint, `pgx.ErrNoRows`, JSON that cannot be
-- written or cannot be read, or an error that a fault point injects.
pub data StoreErr : Type 0 where
  sentinel : Err → StoreErr
  replay_after_conflict violation no_rows unmarshalable undecodable : StoreErr
  injected : String → StoreErr

-- A spelling that a column gives back is one that it keeps.
abbrev pub KeepsSpelling : Columns → Type 0
KeepsSpelling col = (id : String) → col.uuid (col.uuid id) ≡ col.uuid id

-- An error of the domain's functions as one of the store.
abbrev pub raised {ℓ} : {A : Type ℓ} → Result Err A → Result StoreErr A
raised (ok a) = ok a
raised (err e) = err (sentinel e)

-- `optionalArtifact`, also for the two references of a run.
unfoldable pub optional_artifact : Option String → Option String → Result Err (Option ArtifactRef)
optional_artifact none none = ok none
optional_artifact (some uri) (some digest) = ok (some (record { uri = uri; digest = digest }))
optional_artifact _ _ = err invalid

unfoldable pub apply_lease :
    Option String → Option String → Option ℕ → Option ℕ → Result Err (Option LeaseRef)
apply_lease none none none none = ok none
apply_lease (some id) (some owner) (some expiry) (some fence) = do
  fail_if (ltb fence 1 || ltb 4294967295 fence) invalid
  ok (some (record { id = id; owner_id = owner; expires_at = expiry; fencing_token = fence }))
apply_lease _ _ _ _ = err invalid

abbrev uri_of : Option ArtifactRef → Option String
uri_of = Option.map (λ a. a.uri)

abbrev digest_of : Option ArtifactRef → Option String
digest_of = Option.map (λ a. a.digest)

-- A nil pointer leaves the candidate commit as it is, empty.
abbrev pub commit_of : Option String → String
commit_of none = ""
commit_of (some c) = c

module _ (col : Columns) where
  -- The values of `insertTask`, with those of `taskBindingValues`.
  unfoldable pub task_row : Task → TaskRow
  task_row t = record {
    task_id = col.uuid t.id;
    run_id = col.uuid t.run_id;
    state = t.state;
    revision = t.revision;
    max_attempts = t.max_attempts;
    current_attempt = t.current_attempt;
    lease_id = Option.map (λ l. col.uuid l.id) t.lease;
    lease_owner_id = Option.map (λ l. col.uuid l.owner_id) t.lease;
    lease_expires_at = Option.map (λ l. col.time l.expires_at) t.lease;
    lease_fencing_token = Option.map (λ l. l.fencing_token) t.lease;
    proposal_uri = uri_of t.proposal;
    proposal_digest = digest_of t.proposal;
    execution_uri = uri_of t.execution;
    execution_digest = digest_of t.execution;
    candidate_commit = if str_eq t.candidate_commit "" then none else some t.candidate_commit;
    verification_uri = uri_of t.verification;
    verification_digest = digest_of t.verification;
    review_uri = uri_of t.review;
    review_digest = digest_of t.review;
    approval_uri = uri_of t.approval;
    approval_digest = digest_of t.approval;
    created_at = col.time t.created_at;
    updated_at = col.time t.updated_at;
  }

  -- `updateTask` sets every column but the identifiers, the attempt limit and the creation time.
  unfoldable pub updated_task_row : Task → TaskRow → TaskRow
  unfolding task_row
  updated_task_row t row = record (task_row t) {
    task_id = row.task_id;
    run_id = row.run_id;
    max_attempts = row.max_attempts;
    created_at = row.created_at;
  }

  abbrev pub lifecycle_of : Run → RunLifecycleBindings
  lifecycle_of r = record {
    execution = r.execution;
    candidate_commit = r.candidate_commit;
    verification = r.verification;
    review = r.review;
    approval = r.approval;
    publication = r.publication;
    merge = r.merge;
  }

  unfoldable pub encode_run_lifecycle : Run → Option String
  encode_run_lifecycle r = col.marshal (lifecycle_of r)

  -- What the column gives back of the encoded bindings, if they can be written.
  unfoldable pub lifecycle_column : Run → Option String
  unfolding encode_run_lifecycle
  lifecycle_column r = elim (encode_run_lifecycle r) [ none ↦ none | some text ↦ col.jsonb text ]

  -- The values of `insertRun`, with the kept lifecycle bindings.
  unfoldable pub run_row : Run → String → RunRow
  run_row r lifecycle = record {
    run_id = col.uuid r.id;
    state = r.state;
    revision = r.revision;
    specification_uri = uri_of r.specification;
    specification_digest = digest_of r.specification;
    task_graph_uri = uri_of r.task_graph;
    task_graph_digest = digest_of r.task_graph;
    lifecycle_bindings = lifecycle;
    created_at = col.time r.created_at;
    updated_at = col.time r.updated_at;
  }

  -- `updateRun` sets every column but the identifier and the creation time.
  unfoldable pub updated_run_row : Run → String → RunRow → RunRow
  unfolding run_row
  updated_run_row r lifecycle row = record (run_row r lifecycle) {
    run_id = row.run_id;
    created_at = row.created_at;
  }

-- The row that `loadTask` scans, through `taskRowBindings.apply`.
unfoldable pub scan_task : TaskRow → Result Err Task
unfolding apply_lease optional_artifact
scan_task row = do
  lease ← apply_lease row.lease_id row.lease_owner_id row.lease_expires_at row.lease_fencing_token
  proposal ← optional_artifact row.proposal_uri row.proposal_digest
  execution ← optional_artifact row.execution_uri row.execution_digest
  verification ← optional_artifact row.verification_uri row.verification_digest
  review ← optional_artifact row.review_uri row.review_digest
  approval ← optional_artifact row.approval_uri row.approval_digest
  ok (record {
    id = row.task_id;
    run_id = row.run_id;
    state = row.state;
    revision = row.revision;
    max_attempts = row.max_attempts;
    current_attempt = row.current_attempt;
    lease = lease;
    proposal = proposal;
    execution = execution;
    candidate_commit = commit_of row.candidate_commit;
    verification = verification;
    review = review;
    approval = approval;
    created_at = row.created_at;
    updated_at = row.updated_at;
  })

-- `loadTask` after its query.
unfoldable pub read_task : Env → Option TaskRow → Result Err Task
unfolding scan_task
read_task env none = err not_found
read_task env (some row) = do task ← scan_task row; validate_task env task; ok task

-- `decodeRunLifecycle`
unfoldable pub decode_run_lifecycle : Columns → String → Result StoreErr RunLifecycleBindings
decode_run_lifecycle col encoded = elim (col.unmarshal encoded) [
  | none ↦ err undecodable
  | some bindings ↦ ok bindings
]

-- The row that `loadRun` scans.
unfoldable pub scan_run : Columns → RunRow → Result StoreErr Run
unfolding optional_artifact decode_run_lifecycle
scan_run col row = do
  specification ← raised (optional_artifact row.specification_uri row.specification_digest)
  task_graph ← raised (optional_artifact row.task_graph_uri row.task_graph_digest)
  bindings ← decode_run_lifecycle col row.lifecycle_bindings
  ok (record {
    id = row.run_id;
    state = row.state;
    revision = row.revision;
    specification = specification;
    task_graph = task_graph;
    execution = bindings.execution;
    candidate_commit = bindings.candidate_commit;
    verification = bindings.verification;
    review = bindings.review;
    approval = bindings.approval;
    publication = bindings.publication;
    merge = bindings.merge;
    created_at = row.created_at;
    updated_at = row.updated_at;
  })

-- `loadRun` after its query.
unfoldable pub read_run : Columns → Env → Option RunRow → Result StoreErr Run
unfolding scan_run
read_run col env none = err (sentinel not_found)
read_run col env (some row) = do run ← scan_run col row; raised (validate_run env run); ok run
