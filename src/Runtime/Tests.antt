-- ===== src/Runtime/Tests.antt =====
-- The ledger of jobs at concrete calls.
use Prim.Native.String.{◌++◌ as concat}
use basic.Base.{
  ◌≡◌, refl, String, ℕ, Bool, true, false, Option, none, some, List, [], ◌∷◌, Result, ok, err,
  arith,
}
use basic.Base.Table.{find_row, count_rows, select_rows, update_rows}
use basic.Workflow.Types.{Env, ArtifactRef, validate_artifact}
use basic.Base.Text.{matches_hex}
use basic.Runtime.Jobs.{
  JobState, Job, Jobs, LedgerErr, has_job, enqueue, complete_and_enqueue, renew,
}
use basic.Runtime.Queue.{
  Database, first_row, claim, Call, enqueue_call, claim_call, renew_call, call, calls,
}
use basic.Runtime.Follows.{Follows}
use basic.Runtime.Fencing.{job-Follows, Refused, complete_and_enqueue_stale, renew_stale}
use basic.Runtime.Claims.{Claimed, claim-Claimed}
use basic.Runtime.Idempotency.{
  IdempotencyRequest, Reservations, in_progress, put, reservation_of, held_result,
  begin_idempotency, reserve_row, reclaim, complete_idempotency, update_current,
}
use basic.Runtime.Replies.{
  ReservationCall, begin_call, complete_call, reservation_calls, begin_after_complete,
}

abbrev env : Env
env = record {
  parses_uuid = λ s. true;
  is_absolute_uri = λ s. true;
  range_order = λ ids. ids;
  sha1_uuid = λ space name. name;
}

abbrev artifact : String → ArtifactRef
artifact uri = record {
  uri = uri;
  digest = "c2c2c2c2c2c2c2c2c2c2c2c2c2c2c2c2c2c2c2c2c2c2c2c2c2c2c2c2c2c2c2c2";
}

abbrev database : Database
database = record { stored = λ t. t; is_before = λ a b. false }

abbrev first_job : Job
first_job = record {
  id = "job";
  run_id = "run";
  task_id = none;
  attempt = 1;
  stage = "start";
  state = JobState.ready;
  available_at = 10;
  claim_owner = none;
  claim_expires = none;
  fencing_token = 0;
  retry_count = 0;
  transient_reschedule_count = 0;
  result = none;
  failure = none;
}

abbrev unlocked : String → Bool
unlocked id = false

abbrev worker : String → ℕ → Call
worker owner now = claim_call unlocked owner now 5

-- The second worker claims the job after the claim of the first has expired.
abbrev both : List Call
both = enqueue_call first_job ∷ worker "first" 20 ∷ worker "second" 30 ∷ []

abbrev late_renewal : List Call
late_renewal = renew_call "job" "second" 2 50 ∷ []

abbrev claimed_twice : Job
claimed_twice = record first_job {
  state = JobState.claimed;
  claim_owner = some "second";
  claim_expires = some 35;
  fencing_token = 2;
}

twice : calls env database both [] ≡ claimed_twice ∷ []
unfolding calls call enqueue claim find_row count_rows select_rows update_rows first_row
twice = refl

found_twice : find_row (has_job "job") (calls env database both []) ≡ some claimed_twice
unfolding calls call enqueue claim find_row count_rows select_rows update_rows first_row
found_twice = refl

-- A claim that has not expired is not taken over.
not_taken :
    calls env database (enqueue_call first_job ∷ worker "first" 20 ∷ worker "second" 24 ∷ []) []
    ≡ calls env database (enqueue_call first_job ∷ worker "first" 20 ∷ []) []
unfolding calls call enqueue claim find_row count_rows select_rows update_rows first_row
not_taken = refl

-- Two jobs without a task, in the same stage of the same attempt of a run, are both inserted.
both_inserted :
    enqueue (λ t. t) (record first_job { id = "other" }) (first_job ∷ [])
    ≡ ok (first_job ∷ record first_job { id = "other" } ∷ [])
unfolding enqueue find_row
both_inserted = refl

job-Follows_example :
    (later : Job) × (find_row
        (has_job "job")
        (calls env database late_renewal (calls env database both []))
      ≡ some later)
    × Follows claimed_twice later
job-Follows_example = job-Follows env database both late_renewal "job" found_twice

valid_result : validate_artifact env (artifact "cas:result") ≡ ok tt
unfolding validate_artifact matches_hex
valid_result = refl

complete_and_enqueue_example :
    (e : LedgerErr) × (complete_and_enqueue database.stored env "job" "first" 1
        (artifact "cas:result")
        none
        (calls env database late_renewal (calls env database both []))
      ≡ err e)
    × Refused e
complete_and_enqueue_example =
    complete_and_enqueue_stale env database both late_renewal "job" "first" 1
      (artifact "cas:result") none found_twice (omega arith) valid_result

renew_example :
    (e : LedgerErr) × (renew database.stored "job" "first" 1 60
        (calls env database late_renewal (calls env database both []))
      ≡ err e)
    × Refused e
renew_example =
    renew_stale env database both late_renewal "job" "first" 1 60 found_twice (omega arith)

abbrev second_claim : Result LedgerErr (Option Job × Jobs)
second_claim = claim database unlocked "third" 40 5 (calls env database both [])

abbrev third_job : Job
third_job = record first_job {
  state = JobState.claimed;
  claim_owner = some "third";
  claim_expires = some 45;
  fencing_token = 3;
}

third_claim : second_claim ≡ ok (some third_job, third_job ∷ [])
unfolding calls call enqueue claim find_row count_rows select_rows update_rows first_row
third_claim = refl

claim-Claimed_example :
    Claimed database unlocked "third" 40 5 (calls env database both []) third_job (third_job ∷ [])
claim-Claimed_example = claim-Claimed database env both unlocked "third" 40 5 third_claim

abbrev request : IdempotencyRequest
request = record {
  key = "key";
  method = "POST";
  target = "/v1/runs";
  principal_id = "operator";
  request_digest = "digest";
  reservation_ttl = 0;
}

abbrev nothing : Reservations
nothing key = none

abbrev same_time : ℕ → ℕ
same_time t = t

abbrev reserved : Reservations
reserved = put "key" (reservation_of same_time request 100) nothing

-- A first request reserves its key for 30 s, and a second one meanwhile is refused.
reserves :
    begin_idempotency same_time env request 100 nothing ≡ ok (held_result same_time 1, reserved)
unfolding begin_idempotency reserve_row
reserves = refl

refused_meanwhile : begin_idempotency same_time env request 200 reserved ≡ err in_progress
unfolding begin_idempotency reserve_row reclaim
refused_meanwhile = refl

-- A column that respells what it keeps.
abbrev spaced : String → Option String
spaced text = some (concat " " text)

abbrev replied : Reservations
replied =
    put "key"
      (record (reservation_of same_time request 100) {
        answer = some (201, " created");
        completed = true;
      })
      reserved

replies : complete_idempotency same_time spaced "key" 1 201 "created" reserved ≡ ok replied
unfolding complete_idempotency update_current
replies = refl

abbrev others : List ReservationCall
others = begin_call request 50000 ∷ complete_call "key" 1 500 "failed" ∷ []

begin_after_complete_example :
    (kept : String) × (spaced "created" ≡ some kept)
    × (begin_idempotency same_time env request 60000
          (reservation_calls env same_time spaced others replied)
        ≡ ok (
          record { answer = some (201, kept); replay = true; fencing_token = 1 },
          reservation_calls env same_time spaced others replied,
        ))
begin_after_complete_example =
    begin_after_complete env same_time spaced others request 1 201 60000 "created" reserved refl
      refl refl replies
