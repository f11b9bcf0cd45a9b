-- ===== src/Runtime/Calls.antt =====
-- Every call on the ledger leads each job to a later state.
use basic.Base.{
  ◌≡◌, refl, sym, subst, ap, ◌∙◌, ℕ, Bool, true, false, Option, none, some, [], ◌∷◌, ◌++◌, ok,
  ok-injective, arith, inl, inr, Bool-cases, Option-cases, str_eq, eq_iff,
}
use basic.Base.Table.{In, In-append, find_row, find_row-none}
use basic.Runtime.Jobs.{
  JobState, ready, claimed, retry, completed, failed, cancelled, Job, Jobs, is_over, is_claimed,
  has_job, collides, fresh_job, known_as, same_slot, enqueue, extended,
}
use basic.Runtime.Follows.{Follows-refl, Follows, SoundJobs, Advances, Advances-refl}

pub claimed-not_over : (s : JobState) → is_claimed s ≡ true → is_over s ≡ false
claimed-not_over claimed h = refl
claimed-not_over ready h = cc
claimed-not_over retry h = cc
claimed-not_over completed h = cc
claimed-not_over failed h = cc
claimed-not_over cancelled h = cc

-- A claim that is given up.
pub given_up :
    (a b : Job)
    → b.id ≡ a.id
    → b.fencing_token ≡ a.fencing_token
    → is_over a.state ≡ false
    → is_claimed b.state ≡ false
    → Follows a b
given_up a b id fence live free = record {
  id = id;
  fence = omega (arith, fence);
  over = λ h. absurd (cc (h, live));
  holder = λ e h. absurd (cc (h, free));
}

module _ (stored : ℕ → ℕ) where
  pub extended-Follows :
      (expires : ℕ) (x : Job) → is_claimed x.state ≡ true → Follows x (extended stored expires x)
  extended-Follows expires x h = record {
    id = refl;
    fence = omega arith;
    over = λ o. absurd (cc (o, claimed-not_over x.state h));
    holder = λ e c. (c, refl);
  }

  find_row-left :
      (p : Job → Bool) (xs ys : Jobs) {a : Job}
      → find_row p xs ≡ some a
      → find_row p (xs ++ ys) ≡ some a
  unfolding find_row
  find_row-left p [] ys h = cc
  find_row-left p (x ∷ xs) ys h = elim (Bool-cases (p x)) [
    | inl t ↦ rw t (rw t at h)
    | inr t ↦ rw t (find_row-left p xs ys (rw t at h))
  ]

  append-SoundJobs :
      (job : Job) (jobs : Jobs)
      → ((x : Job) → In x jobs → str_eq x.id job.id ≡ false)
      → job.fencing_token ≡ 0
      → SoundJobs jobs
      → SoundJobs (jobs ++ job ∷ [])
  append-SoundJobs job jobs absent zero u = record {
    unique = λ a b i j e. elim (In-append a jobs (job ∷ []) i) [
      | inl i' ↦ elim (In-append b jobs (job ∷ []) j) [
        | inl j' ↦ u.unique a b i' j' e
        | inr (inl j') ↦ absurd (cc ((eq_iff a.id job.id).1 (e ∙ ap (λ r. r.id) j'), absent a i'))
        | inr (inr j') ↦ absurd j'
      ]
      | inr (inl i') ↦ elim (In-append b jobs (job ∷ []) j) [
        | inl j' ↦ absurd (cc ((eq_iff b.id job.id).1 (sym e ∙ ap (λ r. r.id) i'), absent b j'))
        | inr (inl j') ↦ i' ∙ sym j'
        | inr (inr j') ↦ absurd j'
      ]
      | inr (inr i') ↦ absurd i'
    ];
    bounded = λ a i. elim (In-append a jobs (job ∷ []) i) [
      | inl i' ↦ u.bounded a i'
      | inr (inl i') ↦ omega (arith, zero, ap (λ r. r.fencing_token) i')
      | inr (inr i') ↦ absurd i'
    ];
  }

  known_as-same :
      (job : Job) (jobs : Jobs) (o : Option Job) {jobs' : Jobs}
      → known_as stored job jobs o ≡ ok jobs'
      → jobs' ≡ jobs
  known_as-same job jobs none h = cc
  known_as-same job jobs (some row) h = ground arith

  pub enqueue-Advances :
      (job : Job) (jobs : Jobs) {jobs' : Jobs}
      → enqueue stored job jobs ≡ ok jobs'
      → SoundJobs jobs
      → Advances jobs jobs'
  unfolding enqueue
  enqueue-Advances job jobs h u = elim (Option-cases (find_row (collides job) jobs)) [
    | inl e ↦ subst (Advances jobs) (ok-injective (rw (e, enqueue) at h)) (record {
      sound =
          append-SoundJobs (fresh_job stored job) jobs
            (λ x i. let n = find_row-none (collides job) jobs x e i in ground arith) refl u;
      kept = λ id {a} f.
          (a, find_row-left (has_job id) jobs (fresh_job stored job ∷ []) f, Follows-refl a);
    })
    | inr (other, e) ↦
        subst (Advances jobs)
          (sym (known_as-same job jobs (find_row (same_slot job) jobs) (rw (e, enqueue) at h)))
          (Advances-refl u)
  ]
