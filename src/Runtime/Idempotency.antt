-- ===== src/Runtime/Idempotency.antt =====
-- The idempotency reservations of go/internal/runtime/ledger.go. The table is a map from its primary
-- key. A status and a response are null together, so they are one option; of the time of completion,
-- only whether it is there is kept. A response is the text of its JSON, and `jsonb` what a column of
-- that type gives back of a text, where it takes it; a nil response is not modelled. A duration that is not positive is 0. `clock` is the time of the
-- process where the code takes it there, else the database's.
use basic.Base.{
  ℕ, ◌+◌, ◌%◌, String, Bool, true, false, not, ◌&&◌, Option, none, some, Result, ok, err, ◌==◌,
  str_eq, ltb, if◌then◌else◌,
}
use basic.Workflow.Types.{Env}

pub record IdempotencyRequest : Type 0 where
  pub key : String
  pub method : String
  pub target : String
  pub principal_id : String
  pub request_digest : String
  pub reservation_ttl : ℕ

pub record IdempotencyResult : Type 0 where
  pub answer : Option (ℕ × String)
  pub replay : Bool
  pub fencing_token : ℕ

pub record Reservation : Type 0 where
  pub method : String
  pub target : String
  pub principal_id : String
  pub request_digest : String
  pub answer : Option (ℕ × String)
  pub completed : Bool
  pub expires_at : ℕ
  pub generation : ℕ

-- The ledger's sentinels, a generation that the column of type `bigint` does not hold, or a response
-- that the column of type `jsonb` does not take.
pub data ReservationErr : Type 0 where
  conflict in_progress not_found stale_fence terminal out_of_range invalid_json : ReservationErr

abbrev pub Reservations : Type 0
Reservations = String → Option Reservation

abbrev pub put : String → Reservation → Reservations → Reservations
put key row table other = if str_eq other key then some row else table other

-- 30 s where the request gives no time.
abbrev pub ttl_of : IdempotencyRequest → ℕ
ttl_of r = if r.reservation_ttl == 0 then 30000000000 else r.reservation_ttl

abbrev pub matches : Reservation → IdempotencyRequest → Bool
matches row r =
    str_eq row.method r.method
    && str_eq row.target r.target
    && str_eq row.principal_id r.principal_id
    && str_eq row.request_digest r.request_digest

module _ (stored : ℕ → ℕ) where
  abbrev pub reservation_of : IdempotencyRequest → ℕ → Reservation
  reservation_of r clock = record {
    method = r.method;
    target = r.target;
    principal_id = r.principal_id;
    request_digest = r.request_digest;
    answer = none;
    completed = false;
    expires_at = stored (clock + ttl_of r);
    generation = 1;
  }

  abbrev pub held_result : ℕ → IdempotencyResult
  held_result token = record { answer = none; replay = false; fencing_token = token }

  -- A reservation that has run out is taken over under the next generation.
  unfoldable pub reclaim :
      IdempotencyRequest → ℕ → Reservation → Result ReservationErr (IdempotencyResult × Reservation)
  reclaim r clock row =
      let token = (row.generation + 1) % 18446744073709551616 in
      if ltb clock row.expires_at
      then err in_progress
      else if ltb 9223372036854775807 token
      then err out_of_range
      else ok (
        held_result token,
        record row { expires_at = stored (clock + ttl_of r); generation = token },
      )

  abbrev pub replay_or_reclaim :
      IdempotencyRequest
      → ℕ
      → Reservation
      → Option (ℕ × String)
      → Result ReservationErr (IdempotencyResult × Reservation)
  replay_or_reclaim r clock row (some answer) =
      ok (record { answer = some answer; replay = true; fencing_token = row.generation }, row)
  replay_or_reclaim r clock row none = reclaim r clock row

  -- What the row of the key becomes, after the insertion that does nothing on a conflict.
  unfoldable pub reserve_row :
      IdempotencyRequest
      → ℕ
      → Option Reservation
      → Result ReservationErr (IdempotencyResult × Reservation)
  unfolding reclaim
  reserve_row r clock none = ok (held_result 1, reservation_of r clock)
  reserve_row r clock (some row) =
      if not (matches row r) then err conflict else replay_or_reclaim r clock row row.answer

  abbrev pub written :
      String
      → Reservations
      → Result ReservationErr (IdempotencyResult × Reservation)
      → Result ReservationErr (IdempotencyResult × Reservations)
  written key table (ok (result, row)) = ok (result, put key row table)
  written key table (err e) = err e

  unfoldable pub begin_idempotency :
      Env
      → IdempotencyRequest
      → ℕ
      → Reservations
      → Result ReservationErr (IdempotencyResult × Reservations)
  unfolding reserve_row
  begin_idempotency env r clock table =
      if not (env.parses_uuid r.key)
      then err conflict
      else written r.key table (reserve_row r clock (table r.key))

  -- `reservation_generation=$2 AND completed_at IS NULL`
  abbrev pub is_current : ℕ → Reservation → Bool
  is_current token row = row.generation == token && not row.completed

  -- An update of the current reservation, and the error where there is none to update.
  unfoldable pub update_current :
      String
      → ℕ
      → (Reservation → Reservation)
      → (Option Reservation → ReservationErr)
      → Reservations
      → Result ReservationErr Reservations
  update_current key token change refuse table = elim (table key) [
    | none ↦ err (refuse none)
    | some row ↦
        if is_current token row then ok (put key (change row) table) else err (refuse (some row))
  ]

  abbrev pub stale : Option Reservation → ReservationErr
  stale row = stale_fence

  -- What `CompleteIdempotency` and `AbandonIdempotency` tell of a row they could not update.
  abbrev pub classify : Option Reservation → ReservationErr
  classify none = not_found
  classify (some row) = if row.completed then terminal else conflict

  unfoldable pub renew_idempotency :
      String → ℕ → ℕ → ℕ → Reservations → Result ReservationErr Reservations
  renew_idempotency key token ttl clock table =
      if ttl == 0
      then err conflict
      else update_current key token (λ row. record row { expires_at = stored (clock + ttl) }) stale
          table

  abbrev pub complete_with :
      String → ℕ → ℕ → Option String → Reservations → Result ReservationErr Reservations
  complete_with key token status none table = err invalid_json
  complete_with key token status (some kept) table =
      update_current key token
        (λ row. record row { answer = some (status, kept); completed = true }) classify table

  unfoldable pub complete_idempotency :
      (String → Option String)
      → String
      → ℕ
      → ℕ
      → String
      → Reservations
      → Result ReservationErr Reservations
  complete_idempotency jsonb key token status response =
      complete_with key token status (jsonb response)

  unfoldable pub abandon_idempotency :
      String → ℕ → ℕ → Reservations → Result ReservationErr Reservations
  abandon_idempotency key token clock =
      update_current key token (λ row. record row { expires_at = stored clock }) classify
