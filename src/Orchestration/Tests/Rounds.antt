-- ===== src/Orchestration/Tests/Rounds.antt =====
-- A round of the reconciler at a concrete job.
use basic.Base.{◌≡◌, refl, true, false, none, some, List, [], ◌∷◌, ok}
use basic.Base.Text.{matches_hex}
use basic.Base.Table.{find_row, count_rows, select_rows, update_rows}
use basic.Workflow.Types.{Env, ArtifactRef, validate_artifact}
use basic.Runtime.Jobs.{JobState, Job, enqueue, complete_and_enqueue, update_held}
use basic.Runtime.Queue.{Database, first_row, claim, Call, enqueue_call, call, calls}
use basic.Orchestration.Failure.{Config}
use basic.Orchestration.Once.{Worker, next_stage, stage_after, complete_stage, once}
use basic.Orchestration.Released.{Released, once-Released}

abbrev env : Env
env = record {
  parses_uuid = λ s. true;
  is_absolute_uri = λ s. true;
  range_order = λ ids. ids;
  sha1_uuid = λ space name. name;
}

abbrev evidence : ArtifactRef
evidence = record {
  uri = "cas:evidence";
  digest = "d3d3d3d3d3d3d3d3d3d3d3d3d3d3d3d3d3d3d3d3d3d3d3d3d3d3d3d3d3d3d3d3";
}

abbrev database : Database
database = record { stored = λ t. t; is_before = λ a b. false }

abbrev config : Config
config = record { max_retries = 3; initial_backoff = 1000000000 }

abbrev queued : Job
queued = record {
  id = "job";
  run_id = "run";
  task_id = some "task";
  attempt = 1;
  stage = "start";
  state = JobState.ready;
  available_at = 10;
  claim_owner = none;
  claim_expires = none;
  fencing_token = 0;
  retry_count = 0;
  transient_reschedule_count = 0;
  result = none;
  failure = none;
}

abbrev worker : Worker
worker = record {
  stable_id = λ parts. "next job";
  decimal = λ n. "1";
  handle = λ job. ok (evidence, true);
  put_failure = λ job e. none;
  owner = "worker";
  locked = λ id. false;
  claim_ttl = 5;
  claimed_at = 20;
  finished_at = 22;
}

abbrev queue : List Call
queue = enqueue_call queued ∷ []

abbrev taken : Job
taken = record queued {
  state = JobState.claimed;
  claim_owner = some "worker";
  claim_expires = some 25;
  fencing_token = 1;
}

takes :
    claim database worker.locked "worker" 20 5 (calls env database queue [])
    ≡ ok (some taken, taken ∷ [])
unfolding calls call enqueue claim find_row count_rows select_rows update_rows first_row
takes = refl

-- The job is completed, and the job of the next stage is ready.
completes :
    (once env database config worker (calls env database queue [])).1
    ≡ record queued { state = JobState.completed; fencing_token = 1; result = some evidence }
      ∷ record queued { id = "next job"; stage = "implementation_request"; available_at = 22 }
      ∷ []
unfolding calls call enqueue claim find_row count_rows select_rows update_rows first_row once
    complete_stage complete_and_enqueue update_held validate_artifact matches_hex next_stage
    stage_after
completes = refl

ends_well : (once env database config worker (calls env database queue [])).0.1 ≡ ok tt
unfolding calls call enqueue claim find_row count_rows select_rows update_rows first_row once
    complete_stage complete_and_enqueue update_held validate_artifact matches_hex next_stage
    stage_after
ends_well = refl

-- The last stage has no successor.
last_stage : next_stage "awaiting_approval" ≡ none
unfolding next_stage stage_after
last_stage = refl

once-Released_example :
    Released taken JobState.completed
      (once env database config worker (calls env database queue [])).1
once-Released_example = once-Released env database config worker queue takes ends_well
