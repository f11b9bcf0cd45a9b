-- ===== src/Runtime/History.antt =====
-- A job over any sequence of calls on the ledger.
use basic.Base.{
  ◌≡◌, refl, subst, ap, ◌∙◌, ℕ, ◌+◌, ◌%◌, String, Bool, false, Option, none, some, List, [], ◌∷◌,
  Result, Check, ok, err, >>=-eq-ok, ok-injective, arith, inl, inr, Bool-cases, Option-cases, ◌==◌,
  eq_iff, ltb,
}
use basic.Base.Table.{In, count_rows, select_rows, In-select_rows}
use basic.Workflow.Types.{Env, ArtifactRef, validate_artifact, Err}
use basic.Runtime.Jobs.{
  completed, failed, cancelled, Job, Jobs, LedgerErr, is_over, is_claimed, has_job, update_held,
  enqueue, enqueue_next, renew, complete, complete_and_enqueue, retry_job, reschedule_transient,
  fail, cancel_run, is_open_in, ended, extended, delayed, checked,
}
use basic.Runtime.Queue.{
  Database, is_open, first_row, comes_before, claimed_row, claim_row, claim, Call, enqueue_call,
  claim_call, complete_call, complete_and_enqueue_call, renew_call, retry_call, reschedule_call,
  fail_call, cancel_call, settled, settled_claim, call, calls,
}
use basic.Runtime.Follows.{
  SoundJobs, Advances, Advances-refl, Advances-trans, update-Advances, update_held-Advances,
}
use basic.Runtime.Calls.{claimed-not_over, given_up, extended-Follows, enqueue-Advances}

module _ (d : Database) where
  pub first_row-In : (rows : Jobs) {row : Job} → first_row d rows ≡ some row → In row rows
  unfolding first_row
  first_row-In [] h = cc
  first_row-In (x ∷ xs) {row} h = elim (Option-cases (first_row d xs)) [
    | inl e ↦ inl (cc (rw (e, first_row) at h))
    | inr (y, e) ↦ elim (Bool-cases (comes_before d y x)) [
      | inl t ↦ inr (first_row-In xs (e ∙ (rw t at (rw (e, first_row) at h))))
      | inr t ↦ inl (cc (rw t at (rw (e, first_row) at h)))
    ]
  ]

  claim_row-Advances :
      (owner : String) (expires : ℕ) (row : Job) (jobs : Jobs) {found : Option Job} {jobs' : Jobs}
      → In row jobs
      → is_over row.state ≡ false
      → claim_row d owner expires row jobs ≡ ok (found, jobs')
      → SoundJobs jobs
      → Advances jobs jobs'
  unfolding claim_row
  claim_row-Advances owner expires row jobs i live h u =
      let fence = (row.fencing_token + 1) % 18446744073709551616 in
      elim (Bool-cases (ltb 9223372036854775807 fence)) [
        | inl t ↦ absurd (cc (rw t at h))
        | inr t ↦ elim (Bool-cases (count_rows (has_job row.id) jobs == 1)) [
          | inl c ↦ subst (Advances jobs) (ap (λ p. p.1) (ok-injective (rw c at (rw t at h)))) (
              update-Advances (has_job row.id) (claimed_row d owner expires fence) (λ x. refl) jobs
                (λ x j m.
                  let same = u.unique x row j i ((eq_iff x.id row.id).0 m) in
                  let f = ap (λ r. r.fencing_token) same in
                  (
                    record {
                      id = refl;
                      fence = omega (arith, f, u.bounded row i);
                      over = λ o. absurd (cc (o, live, ap (λ r. is_over r.state) same));
                      holder = λ e c. absurd (omega (arith, f, e, u.bounded row i));
                    },
                    ground (arith, t),
                  ))
                u)
          | inr c ↦
              subst (Advances jobs) (ap (λ p. p.1) (ok-injective (rw c at (rw t at h))))
                (Advances-refl u)
        ]
      ]

  pub claim-Advances :
      (locked : String → Bool) (owner : String) (now ttl : ℕ) (jobs : Jobs) {found : Option Job}
      {jobs' : Jobs}
      → claim d locked owner now ttl jobs ≡ ok (found, jobs')
      → SoundJobs jobs
      → Advances jobs jobs'
  unfolding claim
  claim-Advances locked owner now ttl jobs h u =
      let rows = select_rows (is_open d locked now) jobs in
      elim (Option-cases (first_row d rows)) [
        | inl e ↦
            subst (Advances jobs) (ap (λ p. p.1) (ok-injective (rw (e, claim) at h)))
              (Advances-refl u)
        | inr (row, e) ↦
            let (i, t) = In-select_rows (is_open d locked now) jobs row (first_row-In rows e) in
            claim_row-Advances owner (now + ttl) row jobs i (ground arith) (rw (e, claim) at h) u
      ]

module _ (env : Env) (d : Database) where
  settled-Advances :
      (jobs : Jobs) (r : Result LedgerErr Jobs)
      → ((jobs' : Jobs) → r ≡ ok jobs' → Advances jobs jobs')
      → SoundJobs jobs
      → Advances jobs (settled jobs r)
  settled-Advances jobs (ok jobs') k u = k jobs' refl
  settled-Advances jobs (err e) k u = Advances-refl u

  settled_claim-Advances :
      (jobs : Jobs) (r : Result LedgerErr (Option Job × Jobs))
      → ((found : Option Job) (jobs' : Jobs) → r ≡ ok (found, jobs') → Advances jobs jobs')
      → SoundJobs jobs
      → Advances jobs (settled_claim jobs r)
  settled_claim-Advances jobs (ok (found, jobs')) k u = k found jobs' refl
  settled_claim-Advances jobs (err e) k u = Advances-refl u

  -- A holder's update that gives the claim up.
  pub released-Advances :
      (id owner : String) (fence : ℕ) (change : Job → Job) (jobs : Jobs) {jobs' : Jobs}
      → ((x : Job) → (change x).id ≡ x.id)
      → ((x : Job) → (change x).fencing_token ≡ x.fencing_token)
      → ((x : Job) → is_claimed (change x).state ≡ false)
      → update_held id owner fence change jobs ≡ ok jobs'
      → SoundJobs jobs
      → Advances jobs jobs'
  released-Advances id owner fence change jobs k same free h u =
      update_held-Advances id owner fence change jobs k same
        (λ x c. given_up x (change x) (k x) (same x) (claimed-not_over x.state c) (free x)) h u

  pub checked-eq-ok :
      (c : Check Err) (r : Result LedgerErr Jobs) {jobs : Jobs}
      → checked c r ≡ ok jobs
      → r ≡ ok jobs
  checked-eq-ok (ok _) r h = h
  checked-eq-ok (err e) r h = cc

  pub enqueue_next-Advances :
      (next : Option Job) (jobs : Jobs) {jobs' : Jobs}
      → enqueue_next d.stored next jobs ≡ ok jobs'
      → SoundJobs jobs
      → Advances jobs jobs'
  enqueue_next-Advances none jobs h u = subst (Advances jobs) (ok-injective h) (Advances-refl u)
  enqueue_next-Advances (some job) jobs h u = enqueue-Advances d.stored job jobs h u

  -- The result of a completed job.
  abbrev done : ArtifactRef → Job → Job
  done result row = record (ended d.stored completed row) { result = some result }

  complete_and_enqueue-Advances :
      (id owner : String) (fence : ℕ) (result : ArtifactRef) (next : Option Job) (jobs : Jobs)
      {jobs' : Jobs}
      → complete_and_enqueue d.stored env id owner fence result next jobs ≡ ok jobs'
      → SoundJobs jobs
      → Advances jobs jobs'
  unfolding complete_and_enqueue
  complete_and_enqueue-Advances id owner fence result next jobs h u =
      let (middle, e, f) =
        >>=-eq-ok (update_held id owner fence (done result) jobs) (enqueue_next d.stored next)
          (checked-eq-ok (validate_artifact env result) _ h) in
      let a =
        released-Advances id owner fence (done result) jobs (λ x. refl) (λ x. refl) (λ x. refl) e
          u in
      Advances-trans a (enqueue_next-Advances next middle f a.sound)

  pub call-Advances : (c : Call) (jobs : Jobs) → SoundJobs jobs → Advances jobs (call env d c jobs)
  unfolding call renew complete retry_job reschedule_transient fail cancel_run
  call-Advances (enqueue_call job) jobs u =
      settled-Advances jobs (enqueue d.stored job jobs)
        (λ jobs' h. enqueue-Advances d.stored job jobs h u) u
  call-Advances (claim_call locked owner now ttl) jobs u =
      settled_claim-Advances jobs (claim d locked owner now ttl jobs)
        (λ found jobs' h. claim-Advances d locked owner now ttl jobs h u) u
  call-Advances (complete_call id owner fence result) jobs u =
      settled-Advances jobs (complete d.stored env id owner fence result jobs)
        (λ jobs' h.
          released-Advances id owner fence (done result) jobs (λ x. refl) (λ x. refl) (λ x. refl)
            (checked-eq-ok (validate_artifact env result) _ h) u)
        u
  call-Advances (complete_and_enqueue_call id owner fence result next) jobs u =
      settled-Advances jobs (complete_and_enqueue d.stored env id owner fence result next jobs)
        (λ jobs' h. complete_and_enqueue-Advances id owner fence result next jobs h u) u
  call-Advances (renew_call id owner fence expires) jobs u =
      settled-Advances jobs (renew d.stored id owner fence expires jobs)
        (λ jobs' h.
          update_held-Advances id owner fence (extended d.stored expires) jobs (λ x. refl)
            (λ x. refl) (extended-Follows d.stored expires) h u)
        u
  call-Advances (retry_call id owner fence available) jobs u =
      settled-Advances jobs (retry_job d.stored id owner fence available jobs)
        (λ jobs' h.
          released-Advances id owner fence
            (λ row. record (delayed d.stored available row) { retry_count = row.retry_count + 1 })
            jobs (λ x. refl) (λ x. refl) (λ x. refl) h u)
        u
  call-Advances (reschedule_call id owner fence available) jobs u =
      settled-Advances jobs (reschedule_transient d.stored id owner fence available jobs)
        (λ jobs' h.
          released-Advances id owner fence
            (λ row. record (delayed d.stored available row) {
              transient_reschedule_count = row.transient_reschedule_count + 1;
            })
            jobs (λ x. refl) (λ x. refl) (λ x. refl) h u)
        u
  call-Advances (fail_call id owner fence failure) jobs u =
      settled-Advances jobs (fail d.stored env id owner fence failure jobs)
        (λ jobs' h.
          released-Advances id owner fence
            (λ row. record (ended d.stored failed row) { failure = some failure }) jobs (λ x. refl)
            (λ x. refl) (λ x. refl) (checked-eq-ok (validate_artifact env failure) _ h) u)
        u
  call-Advances (cancel_call run) jobs u =
      update-Advances (is_open_in d.stored run) (ended d.stored cancelled) (λ x. refl) jobs
        (λ x i t.
          (given_up x (ended d.stored cancelled x) refl refl (ground arith) refl, u.bounded x i))
        u

  pub calls-Advances :
      (cs : List Call) (jobs : Jobs) → SoundJobs jobs → Advances jobs (calls env d cs jobs)
  unfolding calls
  calls-Advances [] jobs u = Advances-refl u
  calls-Advances (c ∷ cs) jobs u =
      let a = call-Advances c jobs u in
      Advances-trans a (calls-Advances cs (call env d c jobs) a.sound)
