-- ===== src/Runtime/Replies.antt =====
-- What a completed reservation answers from then on.
use basic.Base.{
  ◌≡◌, refl, sym, subst, ap, ◌∙◌, ℕ, String, true, false, Option, none, some, List, [], ◌∷◌, Result,
  ok, err, ok-injective, fun_ext, arith, inl, inr, ◌⊎◌, Bool-cases, Option-cases, ◌==◌, str_eq,
  eq_iff,
}
use basic.Workflow.Types.{Env}
use basic.Runtime.Idempotency.{
  IdempotencyRequest, IdempotencyResult, Reservation, ReservationErr, Reservations, put, matches,
  replay_or_reclaim, reserve_row, written, begin_idempotency, is_current, update_current,
  renew_idempotency, complete_with, complete_idempotency, abandon_idempotency, stale, classify,
}

-- A call on the reservations, with the time it takes place at.
pub data ReservationCall : Type 0 where
  begin_call : IdempotencyRequest → ℕ → ReservationCall
  renew_call : String → ℕ → ℕ → ℕ → ReservationCall
  complete_call : String → ℕ → ℕ → String → ReservationCall
  abandon_call : String → ℕ → ℕ → ReservationCall

abbrev kept_or : Reservations → Result ReservationErr Reservations → Reservations
kept_or table (ok table') = table'
kept_or table (err e) = table

abbrev begun_or :
    Reservations → Result ReservationErr (IdempotencyResult × Reservations) → Reservations
begun_or table (ok (result, table')) = table'
begun_or table (err e) = table

module _ (env : Env) (stored : ℕ → ℕ) (jsonb : String → Option String) where
  abbrev pub reservation_call : ReservationCall → Reservations → Reservations
  reservation_call (begin_call r clock) table =
      begun_or table (begin_idempotency stored env r clock table)
  reservation_call (renew_call key token ttl clock) table =
      kept_or table (renew_idempotency stored key token ttl clock table)
  reservation_call (complete_call key token status response) table =
      kept_or table (complete_idempotency stored jsonb key token status response table)
  reservation_call (abandon_call key token clock) table =
      kept_or table (abandon_idempotency stored key token clock table)

  unfoldable pub reservation_calls : List ReservationCall → Reservations → Reservations
  reservation_calls [] table = table
  reservation_calls (c ∷ cs) table = reservation_calls cs (reservation_call c table)

  -- The key holds this completed reservation.
  record Done (key : String) (row : Reservation) (answer : ℕ × String) (table : Reservations)
      : Type 0 where
    there : table key ≡ some row
    completed : row.completed ≡ true
    answered : row.answer ≡ some answer

  put_other :
      (key other : String) (row : Reservation) (table : Reservations)
      → str_eq other key ≡ false
      → put key row table other ≡ table other
  put_other key other row table h = rw h refl

  -- No update finds a completed reservation current.
  update_current-there :
      (key other : String) (token : ℕ) (change : Reservation → Reservation)
      (refuse : Option Reservation → ReservationErr) (table : Reservations) (row : Reservation)
      (answer : ℕ × String)
      → Done key row answer table
      → kept_or table (update_current stored other token change refuse table) key ≡ some row
  unfolding update_current
  update_current-there key other token change refuse table row answer d =
      elim (Option-cases (table other)) [
        | inl e ↦ rw (e, update_current) d.there
        | inr (q, e) ↦ elim (Bool-cases (is_current stored token q)) [
          | inl t ↦
              rw (e, update_current)
                (rw t (put_other other key (change q) table (differs q e t) ∙ d.there))
          | inr t ↦ rw (e, update_current) (rw t d.there)
        ]
      ]
    where
      differs :
          (q : Reservation)
          → table other ≡ some q
          → is_current stored token q ≡ true
          → str_eq key other ≡ false
      differs q e t = elim (Bool-cases (str_eq key other)) as (λ _. str_eq key other ≡ false) [
        | inl same ↦
            let found = sym d.there ∙ ap table ((eq_iff key other).0 same) ∙ e in
            let q_row : row ≡ q = cc found in
            let done : q.completed ≡ true = sym (ap (λ r. r.completed) q_row) ∙ d.completed in
            absurd (ground (arith, done, t))
        | inr n ↦ n
      ]

  written-there :
      (key other : String) (table : Reservations) (row : Reservation)
      (x : Result ReservationErr (IdempotencyResult × Reservation))
      → table key ≡ some row
      → ((result : IdempotencyResult) (row' : Reservation)
          → x ≡ ok (result, row')
          → (row' ≡ row) ⊎ (str_eq key other ≡ false))
      → begun_or table (written stored other table x) key ≡ some row
  written-there key other table row (err e) h k = h
  written-there key other table row (ok (result, row')) h k = elim (Bool-cases (str_eq key other)) [
    | inl same ↦ elim (k result row' refl) [
      | inl e ↦ rw same (ap some e)
      | inr n ↦ absurd (cc (same, n))
    ]
    | inr n ↦ rw n h
  ]

  replay_or_reclaim-done :
      (r : IdempotencyRequest) (clock : ℕ) (row : Reservation) (o : Option (ℕ × String))
      {answer : ℕ × String} {result : IdempotencyResult} {row' : Reservation}
      → o ≡ some answer
      → replay_or_reclaim stored r clock row o ≡ ok (result, row')
      → row' ≡ row
  replay_or_reclaim-done r clock row none done h = cc
  replay_or_reclaim-done r clock row (some a) done h = sym (ap (λ p. p.1) (ok-injective h))

  -- A completed reservation is only ever replayed.
  reserve_row-done :
      (r : IdempotencyRequest) (clock : ℕ) (row : Reservation) (answer : ℕ × String)
      (result : IdempotencyResult) (row' : Reservation)
      → row.answer ≡ some answer
      → reserve_row stored r clock (some row) ≡ ok (result, row')
      → row' ≡ row
  unfolding reserve_row
  reserve_row-done r clock row answer result row' done h = elim (Bool-cases (matches row r)) [
    | inl t ↦ replay_or_reclaim-done r clock row row.answer done (rw t at h)
    | inr t ↦ absurd (cc (rw t at h))
  ]

  begin-there :
      (key : String) (r : IdempotencyRequest) (clock : ℕ) (table : Reservations) (row : Reservation)
      (answer : ℕ × String)
      → Done key row answer table
      → begun_or table (begin_idempotency stored env r clock table) key ≡ some row
  unfolding begin_idempotency
  begin-there key r clock table row answer d = elim (Bool-cases (env.parses_uuid r.key)) [
    | inl t ↦ rw t (
        written-there key r.key table row (reserve_row stored r clock (table r.key)) d.there
          (λ result row' h. elim (Bool-cases (str_eq key r.key)) [
            | inl same ↦
                let found = sym (ap table ((eq_iff key r.key).0 same)) ∙ d.there in
                inl (
                  reserve_row-done r clock row answer result row' d.answered
                    (subst (λ o. reserve_row stored r clock o ≡ ok (result, row')) found h))
            | inr n ↦ inr n
          ]))
    | inr t ↦ rw t d.there
  ]

  call-Done :
      (c : ReservationCall) (key : String) (table : Reservations) (row : Reservation)
      (answer : ℕ × String)
      → Done key row answer table
      → Done key row answer (reservation_call c table)
  unfolding renew_idempotency complete_idempotency abandon_idempotency
  call-Done c key table row answer d = record {
    there = there c;
    completed = d.completed;
    answered = d.answered;
  }
    where
      completes :
          (other : String) (token status : ℕ) (o : Option String)
          → kept_or table (complete_with stored other token status o table) key ≡ some row
      completes other token status none = d.there
      completes other token status (some kept) =
          update_current-there key other token _ (classify stored) table row answer d

      there : (c : ReservationCall) → reservation_call c table key ≡ some row
      there (begin_call r clock) = begin-there key r clock table row answer d
      there (renew_call other token ttl clock) = elim (Bool-cases (ttl == 0)) [
        | inl t ↦ rw t d.there
        | inr t ↦ rw t (update_current-there key other token _ (stale stored) table row answer d)
      ]
      there (complete_call other token status response) =
          completes other token status (jsonb response)
      there (abandon_call other token clock) =
          update_current-there key other token _ (classify stored) table row answer d

  calls-Done :
      (cs : List ReservationCall) (key : String) (table : Reservations) (row : Reservation)
      (answer : ℕ × String)
      → Done key row answer table
      → Done key row answer (reservation_calls cs table)
  unfolding reservation_calls
  calls-Done [] key table row answer d = d
  calls-Done (c ∷ cs) key table row answer d =
      calls-Done cs key (reservation_call c table) row answer (call-Done c key table row answer d)

  put_there :
      (key : String) (row : Reservation) (table : Reservations)
      → table key ≡ some row
      → put key row table ≡ table
  put_there key row table h = fun_ext (λ k. elim (Bool-cases (str_eq k key)) [
    | inl t ↦ rw t (sym h ∙ ap table (sym ((eq_iff k key).0 t)))
    | inr t ↦ rw t refl
  ])

  put_key :
      (key : String) (row : Reservation) (table : Reservations) → put key row table key ≡ some row
  put_key key row table = rw ((eq_iff key key).1 refl) refl

  complete_with-final :
      (cs : List ReservationCall) (r : IdempotencyRequest) (token status clock : ℕ) (kept : String)
      (table : Reservations) {row : Reservation} {done : Reservations}
      → env.parses_uuid r.key ≡ true
      → table r.key ≡ some row
      → matches row r ≡ true
      → complete_with stored r.key token status (some kept) table ≡ ok done
      → begin_idempotency stored env r clock (reservation_calls cs done)
        ≡ ok (
          record { answer = some (status, kept); replay = true; fencing_token = token },
          reservation_calls cs done,
        )
  unfolding begin_idempotency reserve_row update_current
  complete_with-final cs r token status clock kept table {row} {done} valid h same e =
      elim (Bool-cases (is_current stored token row)) [
        | inl t ↦
            let final = record row { answer = some (status, kept); completed = true } in
            let made : put r.key final table ≡ done =
              ok-injective (rw t at (rw (h, update_current) at e)) in
            let d =
              calls-Done cs r.key done final (status, kept)
                (record {
                  there = subst (λ x. x r.key ≡ some final) made (put_key r.key final table);
                  completed = refl;
                  answered = refl;
                }) in
            let last = reservation_calls cs done in
            let generation : row.generation ≡ token = ground (arith, t) in
            rw (valid, d.there, same)
              (ap
                  (λ g. ok (
                    record { answer = some (status, kept); replay = true; fencing_token = g },
                    put r.key final last,
                  ))
                  generation
                ∙ ap
                    (λ x. ok (
                      record { answer = some (status, kept); replay = true; fencing_token = token },
                      x,
                    ))
                    (put_there r.key final last d.there))
        | inr t ↦ absurd (cc (rw t at (rw (h, update_current) at e)))
      ]

  completed_response :
      (key : String) (token status : ℕ) (o : Option String) (table : Reservations)
      {done : Reservations}
      → complete_with stored key token status o table ≡ ok done
      → (kept : String) × (o ≡ some kept)
  completed_response key token status none table h = cc
  completed_response key token status (some kept) table h = (kept, refl)

  -- The answer of a completed request is final: after it, and after any other calls, the same request
  -- under the same key gets the same status, marked as a replay, and the text that the column keeps
  -- of the response, which need not be spelled as the response was; and it changes nothing.
  pub begin_after_complete :
      (cs : List ReservationCall) (r : IdempotencyRequest) (token status clock : ℕ)
      (response : String) (table : Reservations) {row : Reservation} {done : Reservations}
      → env.parses_uuid r.key ≡ true
      → table r.key ≡ some row
      → matches row r ≡ true
      → complete_idempotency stored jsonb r.key token status response table ≡ ok done
      → (kept : String) × (jsonb response ≡ some kept)
        × (begin_idempotency stored env r clock (reservation_calls cs done)
            ≡ ok (
              record { answer = some (status, kept); replay = true; fencing_token = token },
              reservation_calls cs done,
            ))
  unfolding complete_idempotency
  begin_after_complete cs r token status clock response table valid h same e =
      let (kept, k) = completed_response r.key token status (jsonb response) table e in
      (kept, k, complete_with-final cs r token status clock kept table valid h same (rw k at e))
