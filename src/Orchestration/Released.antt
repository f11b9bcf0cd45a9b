-- ===== src/Orchestration/Released.antt =====
-- A round of the reconciler that ends well gives up the job it has claimed.
use basic.Base.{
  ◌≡◌, refl, sym, subst, ap, ◌∙◌, ℕ, ◌+◌, String, Bool, true, false, Option, none, some, List, [],
  Result, ok, err, >>=-eq-ok, ok-injective, arith, inl, inr, Bool-cases, ◌==◌, eq_iff,
}
use basic.Base.Table.{find_row, count_rows}
use basic.Workflow.Types.{Env, ArtifactRef, validate_artifact}
use basic.Runtime.Jobs.{
  JobState, completed, failed, retry, Job, Jobs, LedgerErr, is_claimed, has_job, holds, update_held,
  ended, delayed, enqueue_next, complete_and_enqueue, retry_job, reschedule_transient, fail,
}
use basic.Runtime.Queue.{Database, claim, claimed_row, Call, calls}
use basic.Runtime.Follows.{SoundJobs, changed, find_changed}
use basic.Runtime.History.{claim-Advances, checked-eq-ok, enqueue_next-Advances, released-Advances}
use basic.Runtime.Fencing.{reached-SoundJobs}
use basic.Runtime.Claims.{claim-Claimed}
use basic.Orchestration.Failure.{
  Config, HandleError, Action, pass_on, give_up, reschedule_transient as reschedule, retry_stage,
  handle_failure,
}
use basic.Orchestration.Once.{
  Worker, ledger_call, complete_stage, successor, next_stage, report, act, settle_job, once,
}

-- The state that an outcome of the handler leads to.
abbrev pub state_after : Action → JobState
state_after give_up = failed
state_after _ = retry

abbrev pub outcome_state : Config → Job → Result HandleError (ArtifactRef × Bool) → JobState
outcome_state config job (ok result) = completed
outcome_state config job (err e) = state_after (
    handle_failure config
      (record {
        retry_count = job.retry_count;
        transient_reschedule_count = job.transient_reschedule_count;
      })
      e)

-- The job is in the ledger under the same token, in that state, and nobody holds a claim on it.
pub record Released (job : Job) (state : JobState) (jobs : Jobs) : Type 0 where
  pub row : Job
  pub there : find_row (has_job job.id) jobs ≡ some row
  pub settled : row.state ≡ state
  pub free : is_claimed row.state ≡ false
  pub same_token : row.fencing_token ≡ job.fencing_token

-- The holder's update, when it is made, changes the row.
update_held-found :
    (id owner : String) (fence : ℕ) (change : Job → Job) (jobs : Jobs) {jobs' : Jobs} {row : Job}
    → ((x : Job) → (change x).id ≡ x.id)
    → find_row (has_job id) jobs ≡ some row
    → holds id owner fence row ≡ true
    → update_held id owner fence change jobs ≡ ok jobs'
    → find_row (has_job id) jobs' ≡ some (change row)
unfolding update_held
update_held-found id owner fence change jobs {jobs'} {row} k found held h =
    elim (Bool-cases (count_rows (holds id owner fence) jobs == 1)) [
      | inl e ↦
          let made = ok-injective (rw (e, update_held) at h) in
          let there = find_changed (holds id owner fence) change k id jobs found in
          let same : changed (holds id owner fence) change k row ≡ change row = rw held refl in
          subst (λ x. find_row (has_job id) x ≡ some (change row)) made (there ∙ ap some same)
      | inr e ↦ absurd (cc (rw (e, update_held) at h))
    ]

ledger_call-eq-ok :
    (jobs : Jobs) (r : Result LedgerErr Jobs)
    → (ledger_call jobs r).0 ≡ ok tt
    → r ≡ ok (ledger_call jobs r).1
ledger_call-eq-ok jobs (ok jobs') h = refl
ledger_call-eq-ok jobs (err e) h = cc

module _ (env : Env) (d : Database) (config : Config) (w : Worker) where
  -- A change of the held job that gives the claim up.
  held-Released :
      (job row : Job) (change : Job → Job) (state : JobState) (jobs jobs' : Jobs)
      → ((x : Job) → (change x).id ≡ x.id)
      → ((x : Job) → (change x).fencing_token ≡ x.fencing_token)
      → is_claimed state ≡ false
      → ((x : Job) → (change x).state ≡ state)
      → find_row (has_job job.id) jobs ≡ some row
      → holds job.id w.owner job.fencing_token row ≡ true
      → update_held job.id w.owner job.fencing_token change jobs ≡ ok jobs'
      → Released job state jobs'
  held-Released job row change state jobs jobs' k same free settled found held h =
      let token : row.fencing_token ≡ job.fencing_token = ground (arith, held) in
      record {
        row = change row;
        there = update_held-found job.id w.owner job.fencing_token change jobs k found held h;
        settled = settled row;
        free = subst (λ x. is_claimed x ≡ false) (sym (settled row)) free;
        same_token = same row ∙ token;
      }

  complete-Released :
      (job row : Job) (result : ArtifactRef) (continue : Bool) (jobs jobs' : Jobs)
      → SoundJobs jobs
      → find_row (has_job job.id) jobs ≡ some row
      → holds job.id w.owner job.fencing_token row ≡ true
      → complete_and_enqueue d.stored env job.id w.owner job.fencing_token result
          (successor w job continue (next_stage job.stage))
          jobs
        ≡ ok jobs'
      → Released job completed jobs'
  unfolding complete_and_enqueue
  complete-Released job row result continue jobs jobs' u found held h =
      let next = successor w job continue (next_stage job.stage) in
      let change = λ (row : Job). record (ended d.stored completed row) { result = some result } in
      let (middle, e, f) =
        >>=-eq-ok (update_held job.id w.owner job.fencing_token change jobs)
          (enqueue_next d.stored next) (checked-eq-ok env d (validate_artifact env result) _ h) in
      let there =
        update_held-found job.id w.owner job.fencing_token change jobs (λ x. refl) found held e in
      let ended_well =
        released-Advances env d job.id w.owner job.fencing_token change jobs (λ x. refl) (λ x. refl)
          (λ x. refl) e u in
      let (b, last, follows) =
        (enqueue_next-Advances env d next middle f ended_well.sound).kept job.id there in
      let token : row.fencing_token ≡ job.fencing_token = ground (arith, held) in
      record {
        row = change row;
        there = last ∙ ap some (follows.over refl);
        settled = refl;
        free = refl;
        same_token = token;
      }

  report-Released :
      (job row : Job) (jobs : Jobs) (o : Option ArtifactRef)
      → find_row (has_job job.id) jobs ≡ some row
      → holds job.id w.owner job.fencing_token row ≡ true
      → (report env d config w job jobs o).0 ≡ ok tt
      → Released job failed (report env d config w job jobs o).1
  unfolding fail
  report-Released job row jobs none found held h = cc
  report-Released job row jobs (some failure) found held h =
      held-Released job row (λ row. record (ended d.stored failed row) { failure = some failure })
        failed jobs _ (λ x. refl) (λ x. refl) refl (λ x. refl) found held
        (checked-eq-ok env d (validate_artifact env failure) _ (ledger_call-eq-ok jobs _ h))

  act-Released :
      (job row : Job) (e : HandleError) (jobs : Jobs) (action : Action)
      → find_row (has_job job.id) jobs ≡ some row
      → holds job.id w.owner job.fencing_token row ≡ true
      → (act env d config w job e jobs action).0 ≡ ok tt
      → Released job (state_after action) (act env d config w job e jobs action).1
  unfolding retry_job reschedule_transient
  act-Released job row e jobs pass_on found held h = cc
  act-Released job row e jobs give_up found held h =
      report-Released job row jobs (w.put_failure job e) found held h
  act-Released job row e jobs (reschedule delay) found held h =
      held-Released job row
        (λ row. record (delayed d.stored (w.finished_at + delay) row) {
          transient_reschedule_count = row.transient_reschedule_count + 1;
        })
        retry jobs _ (λ x. refl) (λ x. refl) refl (λ x. refl) found held
        (ledger_call-eq-ok jobs _ h)
  act-Released job row e jobs (retry_stage delay) found held h =
      held-Released job row
        (λ row. record (delayed d.stored (w.finished_at + delay) row) {
          retry_count = row.retry_count + 1;
        })
        retry jobs _ (λ x. refl) (λ x. refl) refl (λ x. refl) found held
        (ledger_call-eq-ok jobs _ h)

  settle_job-Released :
      (job row : Job) (jobs : Jobs) (r : Result HandleError (ArtifactRef × Bool))
      → SoundJobs jobs
      → find_row (has_job job.id) jobs ≡ some row
      → holds job.id w.owner job.fencing_token row ≡ true
      → (settle_job env d config w job jobs r).0 ≡ ok tt
      → Released job (outcome_state config job r) (settle_job env d config w job jobs r).1
  unfolding complete_stage
  settle_job-Released job row jobs (ok (result, continue)) u found held h =
      complete-Released job row result continue jobs _ u found held (ledger_call-eq-ok jobs _ h)
  settle_job-Released job row jobs (err e) u found held h =
      act-Released job row e jobs _ found held h

  -- A round of the reconciler, after any calls, that claims a job and ends without an error has given
  -- its claim up: the job is in the ledger under the token of that claim and is not claimed; it is
  -- completed where the handler succeeded, failed where `handleFailure` gives up, and to be retried
  -- where it retries or reschedules.
  pub once-Released :
      (before : List Call) {job : Job} {jobs' : Jobs}
      → claim d w.locked w.owner w.claimed_at w.claim_ttl (calls env d before [])
        ≡ ok (some job, jobs')
      → (once env d config w (calls env d before [])).0.1 ≡ ok tt
      → Released job
          (outcome_state config job (w.handle job))
          (once env d config w (calls env d before [])).1
  unfolding once
  once-Released before {job} {jobs'} claims h =
      let jobs = calls env d before [] in
      let c = claim-Claimed d env before w.locked w.owner w.claimed_at w.claim_ttl claims in
      let u =
        (claim-Advances d w.locked w.owner w.claimed_at w.claim_ttl jobs claims
          (reached-SoundJobs env d before)).sound in
      let ids : job.id ≡ c.row.id = ap (λ j. j.id) c.returned in
      let tokens : job.fencing_token ≡ c.row.fencing_token + 1 =
        ap (λ j. j.fencing_token) c.returned in
      let row =
        claimed_row d w.owner (w.claimed_at + w.claim_ttl) (c.row.fencing_token + 1) c.row in
      let found = subst (λ i. find_row (has_job i) jobs' ≡ some row) (sym ids) c.kept in
      let held : holds job.id w.owner job.fencing_token row ≡ true =
        ground
          (arith, (eq_iff c.row.id job.id).1 (sym ids), (eq_iff w.owner w.owner).1 refl, tokens) in
      rw claims (settle_job-Released job row jobs' (w.handle job) u found held (rw claims at h))
