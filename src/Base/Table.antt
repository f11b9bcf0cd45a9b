-- ===== src/Base/Table.antt =====
-- A table as the list of its rows: what a query finds, counts, selects and updates by a Boolean
-- test, and which rows are there afterwards.
use Prim.Native.Nat.{ℕ, ◌+◌, ◌≤◌}
use mathlib.Core.Path.{◌≡◌, refl, sym, ap}
use mathlib.Core.Logic.{◌⊎◌, inl, inr}
use mathlib.Core.Bool.{Bool, true, false, ◌&&◌}
use mathlib.Core.Option.{Option, none, some}
use mathlib.Core.Option
use mathlib.Core.List.{List, [], ◌∷◌, ◌++◌, map}
use native.Mathlib.Omega.{arith}
use basic.Base.Logic.{if◌then◌else◌, Bool-cases, ◌==◌}

module _ {A : Type 0} where
  -- The row is there.
  abbrev pub In : A → List A → Type 0
  In x [] = ⊥
  In x (y ∷ ys) = (x ≡ y) ⊎ In x ys

  pub In-append : (x : A) (xs ys : List A) → In x (xs ++ ys) → In x xs ⊎ In x ys
  In-append x [] ys h = inr h
  In-append x (y ∷ xs) ys (inl e) = inl (inl e)
  In-append x (y ∷ xs) ys (inr h) = elim (In-append x xs ys h) [
    | inl l ↦ inl (inr l)
    | inr r ↦ inr r
  ]

  pub append-In_left : (x : A) (xs ys : List A) → In x xs → In x (xs ++ ys)
  append-In_left x [] ys h = elim h [ ]
  append-In_left x (y ∷ xs) ys (inl e) = inl e
  append-In_left x (y ∷ xs) ys (inr h) = inr (append-In_left x xs ys h)

  pub append-In_right : (x : A) (xs ys : List A) → In x ys → In x (xs ++ ys)
  append-In_right x [] ys h = h
  append-In_right x (y ∷ xs) ys h = inr (append-In_right x xs ys h)

  -- The row that `QueryRow` scans, `none` for `pgx.ErrNoRows`.
  unfoldable pub find_row : (A → Bool) → List A → Option A
  find_row p [] = none
  find_row p (x ∷ xs) = if p x then some x else find_row p xs

  -- `count(*)`, and the rows that an `UPDATE` affects.
  unfoldable pub count_rows : (A → Bool) → List A → ℕ
  count_rows p [] = 0
  count_rows p (x ∷ xs) = (if p x then 1 else 0) + count_rows p xs

  unfoldable pub select_rows : (A → Bool) → List A → List A
  select_rows p [] = []
  select_rows p (x ∷ xs) = let rest = select_rows p xs in if p x then x ∷ rest else rest

  unfoldable pub update_rows : (A → Bool) → (A → A) → List A → List A
  update_rows p f [] = []
  update_rows p f (x ∷ xs) = (if p x then f x else x) ∷ update_rows p f xs

  pub find_row-some :
      (p : A → Bool) (xs : List A) {x : A} → find_row p xs ≡ some x → In x xs × (p x ≡ true)
  unfolding find_row
  find_row-some p [] h = cc
  find_row-some p (y ∷ xs) h = elim (Bool-cases (p y)) [
    | inl e ↦ ground arith
    | inr e ↦ let ih = find_row-some p xs (rw e at h) in (inr ih.0, ih.1)
  ]

  pub find_row-none :
      (p : A → Bool) (xs : List A) (x : A) → find_row p xs ≡ none → In x xs → p x ≡ false
  unfolding find_row
  find_row-none p [] x h i = elim i [ ]
  find_row-none p (y ∷ xs) x h (inl e) = ground arith
  find_row-none p (y ∷ xs) x h (inr i) = elim (Bool-cases (p y)) [
    | inl e ↦ absurd (ground arith)
    | inr e ↦ find_row-none p xs x (rw e at h) i
  ]

  pub count_rows-zero :
      (p : A → Bool) (xs : List A) (x : A) → count_rows p xs ≡ 0 → In x xs → p x ≡ false
  unfolding count_rows
  count_rows-zero p [] x h i = elim i [ ]
  count_rows-zero p (y ∷ xs) x h (inl e) = ground arith
  count_rows-zero p (y ∷ xs) x h (inr i) = count_rows-zero p xs x (ground arith) i

  pub count_rows-le :
      (p q : A → Bool) (xs : List A) → count_rows (λ x. p x && q x) xs ≤ count_rows p xs
  unfolding count_rows
  count_rows-le p q [] = omega arith
  count_rows-le p q (y ∷ xs) = ground (arith, count_rows-le p q xs)

  -- As many rows pass both tests as pass the first: all that pass it pass the second.
  pub count_rows-all :
      (p q : A → Bool) (xs : List A) (x : A)
      → count_rows (λ x. p x && q x) xs ≡ count_rows p xs
      → In x xs
      → p x ≡ true
      → q x ≡ true
  unfolding count_rows
  count_rows-all p q [] x h i t = elim i [ ]
  count_rows-all p q (y ∷ xs) x h (inl e) t = ground (arith, count_rows-le p q xs)
  count_rows-all p q (y ∷ xs) x h (inr i) t =
      count_rows-all p q xs x (ground (arith, count_rows-le p q xs)) i t

  pub In-update_rows :
      (p : A → Bool) (f : A → A) (xs : List A) (y : A)
      → In y (update_rows p f xs)
      → (x : A) × In x xs × (y ≡ (if p x then f x else x))
  unfolding update_rows
  In-update_rows p f [] y i = elim i [ ]
  In-update_rows p f (z ∷ xs) y (inl e) = (z, inl refl, e)
  In-update_rows p f (z ∷ xs) y (inr i) = let (x, h, e) = In-update_rows p f xs y i in (x, inr h, e)

  pub In-select_rows :
      (p : A → Bool) (xs : List A) (x : A) → In x (select_rows p xs) → In x xs × (p x ≡ true)
  unfolding select_rows
  In-select_rows p [] x h = elim h [ ]
  In-select_rows p (y ∷ xs) x h = elim (Bool-cases (p y)) [
    | inl e ↦ elim (rw e at h) as (λ h. In x (y ∷ xs) × (p x ≡ true)) [
      | inl s ↦ (inl s, ground arith)
      | inr i ↦ let ih = In-select_rows p xs x i in (inr ih.0, ih.1)
    ]
    | inr e ↦ let ih = In-select_rows p xs x (rw e at h) in (inr ih.0, ih.1)
  ]

  pub select_rows-In :
      (p : A → Bool) (xs : List A) (x : A) → In x xs → p x ≡ true → In x (select_rows p xs)
  unfolding select_rows
  select_rows-In p [] x i t = elim i [ ]
  select_rows-In p (y ∷ xs) x (inl e) t = rw (sym e, t) (inl refl)
  select_rows-In p (y ∷ xs) x (inr i) t = elim (Bool-cases (p y)) [
    | inl e ↦ rw e (inr (select_rows-In p xs x i t))
    | inr e ↦ rw e (select_rows-In p xs x i t)
  ]

pub In-map : {A B : Type 0} (f : A → B) (xs : List A) (x : A) → In x xs → In (f x) (map f xs)
In-map f [] x i = elim i [ ]
In-map f (y ∷ xs) x (inl e) = inl (ap f e)
In-map f (y ∷ xs) x (inr i) = inr (In-map f xs x i)

pub map-In :
    {A B : Type 0} (f : A → B) (xs : List A) (y : B)
    → In y (map f xs)
    → (x : A) × In x xs × (y ≡ f x)
map-In f [] y i = elim i [ ]
map-In f (z ∷ xs) y (inl e) = (z, inl refl, e)
map-In f (z ∷ xs) y (inr i) = let (x, h, e) = map-In f xs y i in (x, inr h, e)

-- A row of an updated table is an old one, or one that the update has changed.
pub update_rows-cases :
    {A : Type 0} (p : A → Bool) (f : A → A) (xs : List A) (y : A)
    → In y (update_rows p f xs)
    → (x : A) × In x xs × (((p x ≡ true) × (y ≡ f x)) ⊎ (y ≡ x))
update_rows-cases p f xs y h =
    let (x, i, e) = In-update_rows p f xs y h in
    elim (Bool-cases (p x)) [ inl t ↦ (x, i, inl (t, rw t at e)) | inr t ↦ (x, i, inr (rw t at e)) ]

-- Every old row has one in the updated table.
pub update_rows-In :
    {A : Type 0} (p : A → Bool) (f : A → A) (xs : List A) (x : A)
    → In x xs
    → In (if p x then f x else x) (update_rows p f xs)
unfolding update_rows
update_rows-In p f [] x i = elim i [ ]
update_rows-In p f (y ∷ xs) x (inl e) = rw e (inl refl)
update_rows-In p f (y ∷ xs) x (inr i) = inr (update_rows-In p f xs x i)

-- Where rows are counted, there is one.
pub count_rows-some :
    {A : Type 0} (p : A → Bool) (xs : List A)
    → (count_rows p xs == 0) ≡ false
    → (x : A) × In x xs × (p x ≡ true)
unfolding count_rows
count_rows-some p [] h = cc
count_rows-some p (y ∷ xs) h = elim (Bool-cases (p y)) [
  | inl t ↦ (y, inl refl, t)
  | inr t ↦ let (x, i, e) = count_rows-some p xs (ground arith) in (x, inr i, e)
]

module _ {A : Type 0} (p : A → Bool) where
  pub find_row-append : (xs ys : List A) → find_row p (xs ++ ys) ≡ none → find_row p xs ≡ none
  unfolding find_row
  find_row-append [] ys h = refl
  find_row-append (x ∷ xs) ys h = elim (Bool-cases (p x)) [
    | inl e ↦ absurd (ground arith)
    | inr e ↦ rw e (find_row-append xs ys (rw e at h))
  ]

  -- The only row that passes is the last one.
  pub find_row-last :
      (xs : List A) (y : A) → find_row p xs ≡ none → p y ≡ true → find_row p (xs ++ y ∷ []) ≡ some y
  unfolding find_row
  find_row-last [] y h t = rw t refl
  find_row-last (x ∷ xs) y h t = elim (Bool-cases (p x)) [
    | inl e ↦ absurd (ground arith)
    | inr e ↦ rw e (find_row-last xs y (rw e at h) t)
  ]

  -- The first row that passes is updated with the others.
  pub find_row-update_rows :
      (f : A → A)
      → ((x : A) → p (f x) ≡ p x)
      → (xs : List A) {x : A} → find_row p xs ≡ some x
      → find_row p (update_rows p f xs) ≡ some (f x)
  unfolding find_row update_rows
  find_row-update_rows f k [] h = cc
  find_row-update_rows f k (y ∷ xs) h = elim (Bool-cases (p y)) [
    | inl e ↦ rw e (rw (k y) (rw e (ap (λ o. Option.map f o) (rw e at h))))
    | inr e ↦ rw e (rw e (find_row-update_rows f k xs (rw e at h)))
  ]
