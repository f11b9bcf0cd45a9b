-- ===== src/Runtime/Fencing.antt =====
-- What a claim's fencing token guards.
use basic.Base.{
  ◌≡◌, refl, sym, ap, ◌∙◌, ℕ, ◌<◌, String, Bool, true, false, Option, some, List, [], ◌∷◌, ok, err,
  arith, inl, inr, ◌⊎◌, Bool-cases, eq_iff,
}
use basic.Base.Table.{In, find_row, find_row-some, count_rows}
use basic.Workflow.Types.{Env, ArtifactRef, validate_artifact}
use basic.Runtime.Jobs.{
  completed, Job, Jobs, LedgerErr, stale_fence, terminal, is_over, has_job, holds, update_held,
  classify_job_update, renew, complete_and_enqueue, ended,
}
use basic.Runtime.Queue.{Database, Call, calls}
use basic.Runtime.Follows.{Follows, SoundJobs}
use basic.Runtime.History.{calls-Advances}

empty-SoundJobs : SoundJobs []
empty-SoundJobs = record { unique = λ a b i. absurd i; bounded = λ a i. absurd i }

module _ (env : Env) (d : Database) where
  pub reached-SoundJobs : (cs : List Call) → SoundJobs (calls env d cs [])
  reached-SoundJobs cs = (calls-Advances env d cs [] empty-SoundJobs).sound

  -- Whatever calls are made, a job that is in the ledger stays in it: its token never falls; once it
  -- is completed, failed or cancelled, no call changes it again; and as long as its token is the same
  -- and it is claimed, it has been claimed all along by the same owner.
  pub job-Follows :
      (before after : List Call) (id : String) {row : Job}
      → find_row (has_job id) (calls env d before []) ≡ some row
      → (later : Job) × (find_row (has_job id) (calls env d after (calls env d before []))
          ≡ some later)
        × Follows row later
  job-Follows before after id h =
      (calls-Advances env d after (calls env d before []) (reached-SoundJobs before)).kept id h

count_rows-none :
    (p : Job → Bool) (jobs : Jobs) → ((x : Job) → In x jobs → p x ≡ false) → count_rows p jobs ≡ 0
unfolding count_rows
count_rows-none p [] h = refl
count_rows-none p (x ∷ xs) h =
    ground (arith, h x (inl refl), count_rows-none p xs (λ y i. h y (inr i)))

-- A refusal for a token that is out of date, or for a job that is over.
abbrev pub Refused : LedgerErr → Type 0
Refused e = (e ≡ stale_fence) ⊎ (e ≡ terminal)

classify-Refused :
    (id : String) (jobs : Jobs) {row : Job}
    → find_row (has_job id) jobs ≡ some row
    → Refused (classify_job_update id jobs)
unfolding classify_job_update
classify-Refused id jobs {row} h = elim (Bool-cases (is_over row.state)) [
  | inl t ↦ rw (h, classify_job_update) (rw t (inr refl))
  | inr t ↦ rw (h, classify_job_update) (rw t (inl refl))
]

update_held_stale :
    (id owner : String) (fence : ℕ) (change : Job → Job) (jobs : Jobs) {row : Job}
    → SoundJobs jobs
    → find_row (has_job id) jobs ≡ some row
    → fence < row.fencing_token
    → (e : LedgerErr) × (update_held id owner fence change jobs ≡ err e) × Refused e
unfolding update_held
update_held_stale id owner fence change jobs {row} u h late =
    let (i, t) = find_row-some (has_job id) jobs h in
    let none_held = count_rows-none (holds id owner fence) jobs (λ x j.
      elim (Bool-cases (holds id owner fence x)) as (λ _. holds id owner fence x ≡ false) [
        | inl held ↦
            let mine : has_job id x ≡ true = ground arith in
            let same =
              u.unique x row j i ((eq_iff x.id id).0 mine ∙ sym ((eq_iff row.id id).0 t)) in
            absurd (ground (arith, late, ap (λ r. r.fencing_token) same, held))
        | inr free ↦ free
      ]) in
    (classify_job_update id jobs, rw none_held refl, classify-Refused id jobs h)

module _ (env : Env) (d : Database) where
  -- The job after more calls, whose token is still greater.
  later_stale :
      (before after : List Call) (id owner : String) (fence : ℕ) (change : Job → Job) {row : Job}
      → find_row (has_job id) (calls env d before []) ≡ some row
      → fence < row.fencing_token
      → (e : LedgerErr) × (update_held id owner fence change
            (calls env d after (calls env d before []))
          ≡ err e)
        × Refused e
  later_stale before after id owner fence change h late =
      let jobs = calls env d before [] in
      let (later, found, f) = job-Follows env d before after id h in
      update_held_stale id owner fence change (calls env d after jobs)
        (calls-Advances env d after jobs (reached-SoundJobs env d before)).sound found
        (omega (arith, late, f.fence))

  -- A worker whose token is below that of the job, since the job has been claimed again, cannot
  -- complete it and enqueue its successor, whatever calls are made in between: the call fails with
  -- `ErrStaleFence` or `ErrTerminal`. The condition is that the reference to its result is valid.
  pub complete_and_enqueue_stale :
      (before after : List Call) (id owner : String) (fence : ℕ) (result : ArtifactRef)
      (next : Option Job) {row : Job}
      → find_row (has_job id) (calls env d before []) ≡ some row
      → fence < row.fencing_token
      → validate_artifact env result ≡ ok tt
      → (e : LedgerErr) × (complete_and_enqueue d.stored env id owner fence result next
            (calls env d after (calls env d before []))
          ≡ err e)
        × Refused e
  unfolding complete_and_enqueue
  complete_and_enqueue_stale before after id owner fence result next h late valid =
      let (e, refused, r) =
        later_stale before after id owner fence
          (λ row. record (ended d.stored completed row) { result = some result }) h late in
      (e, rw valid (rw refused refl), r)

  -- A worker whose token is below that of the job, since the job has been claimed again, cannot renew
  -- its claim, whatever calls are made in between: the call fails with `ErrStaleFence` or
  -- `ErrTerminal`.
  pub renew_stale :
      (before after : List Call) (id owner : String) (fence expires : ℕ) {row : Job}
      → find_row (has_job id) (calls env d before []) ≡ some row
      → fence < row.fencing_token
      → (e : LedgerErr) × (renew d.stored id owner fence expires
            (calls env d after (calls env d before []))
          ≡ err e)
        × Refused e
  unfolding renew
  renew_stale before after id owner fence expires h late =
      later_stale before after id owner fence _ h late
