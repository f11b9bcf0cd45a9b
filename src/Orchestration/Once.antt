-- ===== src/Orchestration/Once.antt =====
-- One round of the reconciler: `Once`, `complete`, `fail` and `nextStage` of
-- go/internal/orchestration/reconciler.go, on the job ledger. The heartbeat, which renews the claim
-- while the handler runs, and the logger are not modelled.
use basic.Base.{
  ℕ, ◌+◌, String, Bool, true, false, Option, none, some, List, [], ◌∷◌, Result, ok, err, str_eq,
  if◌then◌else◌,
}
use basic.Workflow.Types.{Env, ArtifactRef}
use basic.Runtime.Jobs.{
  ready, Job, Jobs, LedgerErr, complete_and_enqueue, retry_job, reschedule_transient, fail,
}
use basic.Runtime.Queue.{Database, claim}
use basic.Orchestration.Failure.{
  Config, HandleError, Action, pass_on, give_up, reschedule_transient as reschedule, retry_stage,
  handle_failure,
}

abbrev pub ordered_stages : List String
ordered_stages =
    "start" ∷ "implementation_request" ∷ "implementation_reasoning" ∷ "execution" ∷ "verification"
    ∷ "review" ∷ "awaiting_approval" ∷ []

abbrev pub head_or : Option String → List String → Option String
head_or rest [] = rest
head_or rest (value ∷ values) = some value

-- The stage after the first one that is equal and has one after it.
unfoldable pub stage_after : String → List String → Option String
stage_after stage [] = none
stage_after stage (value ∷ values) =
    let rest = stage_after stage values in if str_eq value stage then head_or rest values else rest

unfoldable pub next_stage : String → Option String
unfolding stage_after
next_stage stage = stage_after stage ordered_stages

abbrev pub task_value : Option String → String
task_value none = "-"
task_value (some task) = task

-- What a round takes from outside: `StableID`'s text in Go syntax and `uuid.NewSHA1` of it,
-- `fmt.Sprint` of a number, the stage's handler, the artifact store for the report of a failure, the
-- worker's identifier, the rows that others have locked, and the times that are read.
pub record Worker : Type 0 where
  pub stable_id : List String → String
  pub decimal : ℕ → String
  pub handle : Job → Result HandleError (ArtifactRef × Bool)
  pub put_failure : Job → HandleError → Option ArtifactRef
  pub owner : String
  pub locked : String → Bool
  pub claim_ttl : ℕ
  pub claimed_at : ℕ
  pub finished_at : ℕ

-- An error of the ledger, of the handler's context, or of the artifact store.
pub data RoundErr : Type 0 where
  ledger : LedgerErr → RoundErr
  handler : HandleError → RoundErr
  artifact_store : RoundErr

abbrev pub next_job : Worker → Job → String → Job
next_job w job stage = record {
  id =
      w.stable_id
        (job.run_id ∷ task_value job.task_id ∷ w.decimal job.attempt ∷ stage ∷ "job" ∷ []);
  run_id = job.run_id;
  task_id = job.task_id;
  attempt = job.attempt;
  stage = stage;
  state = ready;
  available_at = w.finished_at;
  claim_owner = none;
  claim_expires = none;
  fencing_token = 0;
  retry_count = 0;
  transient_reschedule_count = 0;
  result = none;
  failure = none;
}

abbrev pub successor : Worker → Job → Bool → Option String → Option Job
successor w job true (some stage) = some (next_job w job stage)
successor w job _ _ = none

-- What the ledger's call leaves, or its error.
abbrev pub ledger_call : Jobs → Result LedgerErr Jobs → Result RoundErr (Unit {0}) × Jobs
ledger_call jobs (ok jobs') = (ok tt, jobs')
ledger_call jobs (err e) = (err (ledger e), jobs)

module _ (env : Env) (d : Database) (config : Config) (w : Worker) where
  unfoldable pub complete_stage :
      Job → ArtifactRef → Bool → Jobs → Result RoundErr (Unit {0}) × Jobs
  unfolding next_stage
  complete_stage job result continue jobs = ledger_call jobs (
      complete_and_enqueue d.stored env job.id w.owner job.fencing_token result
        (successor w job continue (next_stage job.stage)) jobs)

  abbrev pub report : Job → Jobs → Option ArtifactRef → Result RoundErr (Unit {0}) × Jobs
  report job jobs none = (err artifact_store, jobs)
  report job jobs (some failure) =
      ledger_call jobs (fail d.stored env job.id w.owner job.fencing_token failure jobs)

  -- The call of the ledger that a failure leads to.
  abbrev pub act : Job → HandleError → Jobs → Action → Result RoundErr (Unit {0}) × Jobs
  act job e jobs pass_on = (err (handler e), jobs)
  act job e jobs give_up = report job jobs (w.put_failure job e)
  act job e jobs (reschedule delay) =
      ledger_call jobs (
        reschedule_transient d.stored job.id w.owner job.fencing_token (w.finished_at + delay) jobs)
  act job e jobs (retry_stage delay) =
      ledger_call jobs
        (retry_job d.stored job.id w.owner job.fencing_token (w.finished_at + delay) jobs)

  abbrev pub settle_job :
      Job → Jobs → Result HandleError (ArtifactRef × Bool) → Result RoundErr (Unit {0}) × Jobs
  settle_job job jobs (ok (result, continue)) = complete_stage job result continue jobs
  settle_job job jobs (err e) = act job e jobs (
      handle_failure config
        (record {
          retry_count = job.retry_count;
          transient_reschedule_count = job.transient_reschedule_count;
        })
        e)

  -- Whether there was work, and the error, with the ledger afterwards.
  abbrev pub after_claim :
      Jobs → Result LedgerErr (Option Job × Jobs) → (Bool × Result RoundErr (Unit {0})) × Jobs
  after_claim jobs (err e) = ((false, err (ledger e)), jobs)
  after_claim jobs (ok (none, jobs')) = ((false, ok tt), jobs')
  after_claim jobs (ok (some job, jobs')) =
      let out = settle_job job jobs' (w.handle job) in ((true, out.0), out.1)

  unfoldable pub once : Jobs → (Bool × Result RoundErr (Unit {0})) × Jobs
  unfolding complete_stage
  once jobs = after_claim jobs (claim d w.locked w.owner w.claimed_at w.claim_ttl jobs)
