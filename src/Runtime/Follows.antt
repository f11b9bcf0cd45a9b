-- ===== src/Runtime/Follows.antt =====
-- What happens to one job over any sequence of calls.
use basic.Base.{
  ◌≡◌, refl, sym, subst, ap, ◌∙◌, ℕ, ◌≤◌, String, Bool, true, some, [], ◌∷◌, ok, ok-injective,
  arith, inl, inr, Bool-cases, ◌==◌, str_eq, if◌then◌else◌,
}
use basic.Base.Table.{In, In-update_rows, find_row, find_row-some, count_rows, update_rows}
use mathlib.Core.Option
use basic.Runtime.Jobs.{Job, Jobs, is_over, is_claimed, has_job, holds, update_held}

-- A later state of a job: the token never falls, a job that is over stays as it is, and under the
-- same token no other claim has come.
pub record Follows (a b : Job) : Type 0 where
  pub id : b.id ≡ a.id
  pub fence : a.fencing_token ≤ b.fencing_token
  pub over : is_over a.state ≡ true → b ≡ a
  pub holder :
      b.fencing_token ≡ a.fencing_token
      → is_claimed b.state ≡ true
      → (is_claimed a.state ≡ true) × (b.claim_owner ≡ a.claim_owner)

pub Follows-refl : (a : Job) → Follows a a
Follows-refl a = record {
  id = refl;
  fence = omega arith;
  over = λ h. refl;
  holder = λ e h. (h, refl);
}

Follows-trans : {a b c : Job} → Follows a b → Follows b c → Follows a c
Follows-trans {a} {b} {c} x y = record {
  id = y.id ∙ x.id;
  fence = omega (arith, x.fence, y.fence);
  over = λ h. let e = x.over h in y.over (ap (λ j. is_over j.state) e ∙ h) ∙ e;
  holder = λ e h.
      let (k, same) = y.holder (omega (arith, x.fence, y.fence, e)) h in
      let (k', same') = x.holder (omega (arith, x.fence, y.fence, e)) k in (k', same ∙ same');
}

-- Identifiers are unique, and a token is one that its column holds.
pub record SoundJobs (jobs : Jobs) : Type 0 where
  pub unique : (a b : Job) → In a jobs → In b jobs → a.id ≡ b.id → a ≡ b
  pub bounded : (a : Job) → In a jobs → a.fencing_token ≤ 9223372036854775807

-- From one table to the next: the table stays sound, and every job is there, in a later state.
pub record Advances (jobs jobs' : Jobs) : Type 0 where
  pub sound : SoundJobs jobs'
  pub kept :
      (id : String) {a : Job}
      → find_row (has_job id) jobs ≡ some a
      → (b : Job) × (find_row (has_job id) jobs' ≡ some b) × Follows a b

pub Advances-refl : {jobs : Jobs} → SoundJobs jobs → Advances jobs jobs
Advances-refl u = record { sound = u; kept = λ id {a} e. (a, e, Follows-refl a) }

pub Advances-trans : {x y z : Jobs} → Advances x y → Advances y z → Advances x z
Advances-trans p q = record {
  sound = q.sound;
  kept = λ id {a} e.
      let (b, f, s) = p.kept id e in let (c, g, t) = q.kept id f in (c, g, Follows-trans s t);
}

module _ (p : Job → Bool) (f : Job → Job) (k : (x : Job) → (f x).id ≡ x.id) where
  -- A row after the update.
  abbrev pub changed : Job → Job
  changed x = if p x then f x else x

  changed-id : (x : Job) → (changed x).id ≡ x.id
  changed-id x = elim (Bool-cases (p x)) [ inl t ↦ rw t (k x) | inr t ↦ rw t refl ]

  pub find_changed :
      (id : String) (jobs : Jobs) {a : Job}
      → find_row (has_job id) jobs ≡ some a
      → find_row (has_job id) (update_rows p f jobs) ≡ some (changed a)
  unfolding find_row update_rows
  find_changed id [] h = cc
  find_changed id (x ∷ xs) h =
      let same = ap (λ i. str_eq i id) (changed-id x) in
      elim (Bool-cases (has_job id x)) [
        | inl t ↦ rw same (rw t (ap (λ o. Option.map changed o) (rw t at h)))
        | inr t ↦ rw same (rw t (find_changed id xs (rw t at h)))
      ]

  changed-Follows : (x : Job) → (p x ≡ true → Follows x (f x)) → Follows x (changed x)
  changed-Follows x s = elim (Bool-cases (p x)) [
    | inl t ↦ rw t (s t)
    | inr t ↦ rw t (Follows-refl x)
  ]

  changed-bounded :
      (x : Job)
      → (p x ≡ true → (f x).fencing_token ≤ 9223372036854775807)
      → x.fencing_token ≤ 9223372036854775807
      → (changed x).fencing_token ≤ 9223372036854775807
  changed-bounded x s b = elim (Bool-cases (p x)) [ inl t ↦ rw t (s t) | inr t ↦ rw t b ]

  -- An update that keeps identifiers and leads each row it changes to a later state.
  pub update-Advances :
      (jobs : Jobs)
      → ((x : Job)
          → In x jobs
          → p x ≡ true
          → Follows x (f x) × ((f x).fencing_token ≤ 9223372036854775807))
      → SoundJobs jobs
      → Advances jobs (update_rows p f jobs)
  update-Advances jobs s u = record {
    sound = record {
      bounded = λ a i.
          let (x, ix, ex) = In-update_rows p f jobs a i in
          subst (λ r. r.fencing_token ≤ 9223372036854775807) (sym ex)
            (changed-bounded x (λ t. (s x ix t).1) (u.bounded x ix));
      unique = λ a b i j e.
          let (x, ix, ex) = In-update_rows p f jobs a i in
          let (y, jy, ey) = In-update_rows p f jobs b j in
          let ids =
            sym (ap (λ r. r.id) ex ∙ changed-id x) ∙ e ∙ (ap (λ r. r.id) ey ∙ changed-id y) in
          ex ∙ ap changed (u.unique x y ix jy ids) ∙ sym ey;
    };
    kept = λ id {a} e. (
      changed a,
      find_changed id jobs e,
      changed-Follows a (λ t. (s a (find_row-some (has_job id) jobs e).0 t).0),
    );
  }

-- Where the holder's update is made, a change that respects the claim leads to a later state.
pub update_held-Advances :
    (id owner : String) (fence : ℕ) (change : Job → Job) (jobs : Jobs) {jobs' : Jobs}
    → ((x : Job) → (change x).id ≡ x.id)
    → ((x : Job) → (change x).fencing_token ≡ x.fencing_token)
    → ((x : Job) → is_claimed x.state ≡ true → Follows x (change x))
    → update_held id owner fence change jobs ≡ ok jobs'
    → SoundJobs jobs
    → Advances jobs jobs'
unfolding update_held
update_held-Advances id owner fence change jobs k same s h u =
    let p = holds id owner fence in
    elim (Bool-cases (count_rows p jobs == 1)) [
      | inl e ↦ subst (Advances jobs) (ok-injective (rw (e, update_held) at h)) (
          update-Advances p change k jobs
            (λ x i t. (s x (ground arith), omega (arith, same x, u.bounded x i))) u)
      | inr e ↦ absurd (cc (rw (e, update_held) at h))
    ]
