-- ===== src/Runtime/Claims.antt =====
-- What `Claim` returns.
use basic.Base.{
  ◌≡◌, refl, sym, subst, ap, ◌∙◌, ℕ, ◌+◌, ◌%◌, ◌≤◌, String, Bool, true, Option, none, some, List,
  [], ◌∷◌, ok, ok-injective, arith, inl, inr, Bool-cases, Option-cases, ◌==◌, eq_iff, ltb,
}
use basic.Base.Table.{
  In, find_row, find_row-some, find_row-none, count_rows, select_rows, In-select_rows,
  select_rows-In, find_row-update_rows,
}
use basic.Workflow.Types.{Env}
use basic.Runtime.Jobs.{Job, Jobs, has_job}
use basic.Runtime.Queue.{
  Database, is_open, first_row, first_of, comes_before, claimed_row, returned_job, claim_row,
  claim_found, claim, Call, calls,
}
use basic.Runtime.Follows.{SoundJobs}
use basic.Runtime.History.{first_row-In}
use basic.Runtime.Fencing.{reached-SoundJobs}

-- The claim of a row: it could be claimed, no other row that could be claimed was available earlier,
-- and the job that is returned and the row that is stored are that row, claimed by the owner under
-- the next token.
pub record Claimed (d : Database) (locked : String → Bool) (owner : String) (now ttl : ℕ)
    (jobs : Jobs) (job : Job) (jobs' : Jobs) : Type 0 where
  pub row : Job
  pub there : find_row (has_job row.id) jobs ≡ some row
  pub claimable : is_open d locked now row ≡ true
  pub earliest :
      (x : Job) → In x jobs → is_open d locked now x ≡ true → row.available_at ≤ x.available_at
  pub returned : job ≡ returned_job owner (now + ttl) (row.fencing_token + 1) row
  pub kept :
      find_row (has_job row.id) jobs'
      ≡ some (claimed_row d owner (now + ttl) (row.fencing_token + 1) row)

module _ (d : Database) where
  first_row-none : (rows : Jobs) (x : Job) → first_row d rows ≡ none → In x rows → ⊥
  unfolding first_row
  first_row-none [] x h i = i
  first_row-none (y ∷ ys) x h i = cc

  -- The first of two rows is available no later than either.
  first_of-le :
      (y z : Job)
      → ((first_of d y (some z)).available_at ≤ y.available_at)
        × ((first_of d y (some z)).available_at ≤ z.available_at)
  first_of-le y z = elim (Bool-cases (comes_before d z y)) [
    | inl t ↦ rw t (ground (arith, t), omega arith)
    | inr t ↦ rw t (omega arith, ground (arith, t))
  ]

  first_row-earliest :
      (rows : Jobs) {row : Job} (x : Job)
      → first_row d rows ≡ some row
      → In x rows
      → row.available_at ≤ x.available_at
  unfolding first_row
  first_row-earliest [] x h i = absurd i
  first_row-earliest (y ∷ ys) {row} x h i = elim (Option-cases (first_row d ys)) [
    | inl e ↦
        let same : y ≡ row = cc (rw (e, first_row) at h) in
        elim i as (λ _. row.available_at ≤ x.available_at) [
          | inl f ↦ omega (arith, ap (λ r. r.available_at) f, ap (λ r. r.available_at) same)
          | inr j ↦ absurd (first_row-none ys x e j)
        ]
    | inr (z, e) ↦
        let same : first_of d y (some z) ≡ row = cc (rw (e, first_row) at h) in
        let (a, b) = first_of-le y z in
        elim i as (λ _. row.available_at ≤ x.available_at) [
          | inl f ↦ omega (arith, a, ap (λ r. r.available_at) f, ap (λ r. r.available_at) same)
          | inr j ↦ omega (arith, b, first_row-earliest ys x e j, ap (λ r. r.available_at) same)
        ]
  ]

  claim_row-Claimed :
      (locked : String → Bool) (owner : String) (now ttl : ℕ) (row : Job) (jobs : Jobs) {job : Job}
      {jobs' : Jobs}
      → SoundJobs jobs
      → first_row d (select_rows (is_open d locked now) jobs) ≡ some row
      → claim_row d owner (now + ttl) row jobs ≡ ok (some job, jobs')
      → Claimed d locked owner now ttl jobs job jobs'
  unfolding claim_row
  claim_row-Claimed locked owner now ttl row jobs {job} {jobs'} u e h =
      let rows = select_rows (is_open d locked now) jobs in
      let fence = (row.fencing_token + 1) % 18446744073709551616 in
      let (i, t) = In-select_rows (is_open d locked now) jobs row (first_row-In d rows e) in
      let next : fence ≡ row.fencing_token + 1 = omega (arith, u.bounded row i) in
      let there = find_unique jobs row u i in
      elim (Bool-cases (ltb 9223372036854775807 fence)) [
        | inl over ↦ absurd (cc (rw over at h))
        | inr fits ↦ elim (Bool-cases (count_rows (has_job row.id) jobs == 1)) [
          | inl c ↦
              let out = ok-injective (rw c at (rw fits at h)) in
              record {
                row = row;
                there = there;
                claimable = t;
                earliest = λ x j k.
                    first_row-earliest rows x e (select_rows-In (is_open d locked now) jobs x j k);
                returned =
                    (let same : returned_job owner (now + ttl) fence row ≡ job =
                        cc (ap (λ p. p.0) out) in
                      sym same ∙ ap (λ f. returned_job owner (now + ttl) f row) next);
                kept =
                    subst
                      (λ f.
                        find_row (has_job row.id) jobs'
                        ≡ some (claimed_row d owner (now + ttl) f row))
                      next
                      (subst
                        (λ x.
                          find_row (has_job row.id) x
                          ≡ some (claimed_row d owner (now + ttl) fence row))
                        (ap (λ p. p.1) out)
                        (find_row-update_rows (has_job row.id)
                          (claimed_row d owner (now + ttl) fence) (λ x. refl) jobs there));
              }
          | inr c ↦ absurd (cc (rw c at (rw fits at h)))
        ]
      ]
    where
      find_unique :
          (jobs : Jobs) (row : Job)
          → SoundJobs jobs
          → In row jobs
          → find_row (has_job row.id) jobs ≡ some row
      find_unique jobs row u i = elim (Option-cases (find_row (has_job row.id) jobs)) [
        | inl e ↦
            absurd (cc (find_row-none (has_job row.id) jobs row e i, (eq_iff row.id row.id).1 refl))
        | inr (x, e) ↦
            let (j, t) = find_row-some (has_job row.id) jobs e in
            e ∙ ap some (u.unique x row j i ((eq_iff x.id row.id).0 t))
      ]

  claim_found-Claimed :
      (locked : String → Bool) (owner : String) (now ttl : ℕ) (jobs : Jobs) (o : Option Job)
      {job : Job} {jobs' : Jobs}
      → SoundJobs jobs
      → first_row d (select_rows (is_open d locked now) jobs) ≡ o
      → claim_found d owner (now + ttl) jobs o ≡ ok (some job, jobs')
      → Claimed d locked owner now ttl jobs job jobs'
  claim_found-Claimed locked owner now ttl jobs none u e h = cc
  claim_found-Claimed locked owner now ttl jobs (some row) u e h =
      claim_row-Claimed locked owner now ttl row jobs u e h

  -- A job that is claimed, after any calls, was one that could be claimed, and no other row that could
  -- be claimed was available earlier; the job that is returned and the row that is kept are that row,
  -- claimed by the owner until the end of the given time, with a token that is greater by one.
  pub claim-Claimed :
      (env : Env) (before : List Call) (locked : String → Bool) (owner : String) (now ttl : ℕ)
      {job : Job} {jobs' : Jobs}
      → claim d locked owner now ttl (calls env d before []) ≡ ok (some job, jobs')
      → Claimed d locked owner now ttl (calls env d before []) job jobs'
  unfolding claim
  claim-Claimed env before locked owner now ttl h =
      let jobs = calls env d before [] in
      claim_found-Claimed locked owner now ttl jobs
        (first_row d (select_rows (is_open d locked now) jobs)) (reached-SoundJobs env d before)
        refl h
