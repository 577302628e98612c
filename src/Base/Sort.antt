-- ===== src/Base/Sort.antt =====
-- `list.sort(key=...)` and `order_by(...)`: a stable insertion sort by a Boolean order.
use mathlib.Core.Path.{◌≡◌}
use mathlib.Core.Bool.{Bool, true}
use mathlib.Core.Logic.{◌⊎◌, inl, inr}
use mathlib.Core.List.{List, [], ◌∷◌, Perm}
use mathlib.Core.List.Perm
use native.Mathlib.Omega.{arith}
use judgeloom_core.Base.Tests.{if◌then◌else◌, Bool-cases}
use judgeloom_core.Base.Lists.{All, select}

-- What the proofs ask of an order.
pub record IsOrder {ℓ} {A : Type ℓ} (le : A → A → Bool) : Type ℓ where
  pub total : (a b : A) → (le a b ≡ true) ⊎ (le b a ≡ true)
  pub trans : (a b c : A) → le a b ≡ true → le b c ≡ true → le a c ≡ true

module _ {ℓ} {A : Type ℓ} (le : A → A → Bool) where
  abbrev pub IsSorted : List A → Type 0
  IsSorted [] = Unit
  IsSorted (x ∷ xs) = All (λ y. le x y ≡ true) xs × IsSorted xs

  unfoldable pub insert_sorted : A → List A → List A
  insert_sorted a [] = a ∷ []
  insert_sorted a (x ∷ xs) = if le a x then a ∷ x ∷ xs else x ∷ insert_sorted a xs

  unfoldable pub sort_by : List A → List A
  unfolding insert_sorted
  sort_by [] = []
  sort_by (x ∷ xs) = insert_sorted x (sort_by xs)

  insert_sorted-perm : (a : A) (xs : List A) → Perm (insert_sorted a xs) (a ∷ xs)
  unfolding insert_sorted
  insert_sorted-perm a [] = Perm.refl (a ∷ [])
  insert_sorted-perm a (x ∷ xs) = elim (Bool-cases (le a x)) [
    | inl e ↦ rw e (Perm.refl (a ∷ x ∷ xs))
    | inr e ↦ rw e (Perm.trans (Perm.cons x (insert_sorted-perm a xs)) (Perm.swap a x xs))
  ]

  select-insert_sorted :
      (p : A → Bool) (a : A) (xs : List A)
      → Perm (select p (insert_sorted a xs)) (select p (a ∷ xs))
  unfolding insert_sorted
  select-insert_sorted p a [] = Perm.refl (select p (a ∷ []))
  select-insert_sorted p a (x ∷ xs) = elim (Bool-cases (le a x)) [
    | inl e ↦ rw e (Perm.refl (select p (a ∷ x ∷ xs)))
    | inr e ↦
        rw e
          (Perm.trans (kept x (insert_sorted a xs) (a ∷ xs) (select-insert_sorted p a xs)) swapped)
  ]
    where
      kept :
          (y : A) (us vs : List A)
          → Perm (select p us) (select p vs)
          → Perm (select p (y ∷ us)) (select p (y ∷ vs))
      kept y us vs h = elim (Bool-cases (p y)) [ inl t ↦ rw t (Perm.cons y h) | inr f ↦ rw f h ]

      swapped : Perm (select p (x ∷ a ∷ xs)) (select p (a ∷ x ∷ xs))
      swapped = elim (Bool-cases (p x)) [
        | inl t ↦ elim (Bool-cases (p a)) [
          | inl u ↦ rw (t, u) (Perm.swap a x (select p xs))
          | inr u ↦ rw (t, u) (Perm.refl (x ∷ select p xs))
        ]
        | inr t ↦ rw t (Perm.refl (select p (a ∷ xs)))
      ]

  -- A query of sorted rows holds the same rows as a query of the rows.
  pub select-sort_by : (p : A → Bool) (xs : List A) → Perm (select p (sort_by xs)) (select p xs)
  unfolding sort_by
  select-sort_by p [] = Perm.refl []
  select-sort_by p (x ∷ xs) =
      Perm.trans (select-insert_sorted p x (sort_by xs)) (elim (Bool-cases (p x)) [
        | inl t ↦ rw t (Perm.cons x (select-sort_by p xs))
        | inr f ↦ rw f (select-sort_by p xs)
      ])

  All-inserted {κ} :
      (P : A → Type κ) (a : A) (xs : List A) → All P (insert_sorted a xs) → P a × All P xs
  unfolding insert_sorted
  All-inserted P a [] h = h
  All-inserted P a (x ∷ xs) h = elim (Bool-cases (le a x)) [
    | inl e ↦ rw e at h
    | inr e ↦
        let later : P x × All P (insert_sorted a xs) = rw e at h in
        let rest = All-inserted P a xs later.1 in (rest.0, (later.0, rest.1))
  ]

  -- What holds of the rows in order holds of them as they are stored.
  pub All-unsorted {κ} : (P : A → Type κ) (xs : List A) → All P (sort_by xs) → All P xs
  unfolding sort_by
  All-unsorted P [] h = tt
  All-unsorted P (x ∷ xs) h =
      let rest = All-inserted P x (sort_by xs) h in (rest.0, All-unsorted P xs rest.1)

  -- The sorted list holds the same rows.
  pub sort_by-perm : (xs : List A) → Perm (sort_by xs) xs
  unfolding sort_by
  sort_by-perm [] = Perm.refl []
  sort_by-perm (x ∷ xs) =
      Perm.trans (insert_sorted-perm x (sort_by xs)) (Perm.cons x (sort_by-perm xs))

  All-insert_sorted {κ} :
      (P : A → Type κ) (a : A) (xs : List A) → P a → All P xs → All P (insert_sorted a xs)
  unfolding insert_sorted
  All-insert_sorted P a [] p h = (p, tt)
  All-insert_sorted P a (x ∷ xs) p h = ground (arith, All-insert_sorted P a xs p h.1)

  pub All-sort_by {κ} : (P : A → Type κ) (xs : List A) → All P xs → All P (sort_by xs)
  unfolding sort_by
  All-sort_by P [] h = tt
  All-sort_by P (x ∷ xs) h = All-insert_sorted P x (sort_by xs) h.0 (All-sort_by P xs h.1)

  module _ (order : IsOrder le) where
    All-le_trans :
        (a x : A) (xs : List A)
        → le a x ≡ true
        → All (λ y. le x y ≡ true) xs
        → All (λ y. le a y ≡ true) xs
    All-le_trans a x [] e h = tt
    All-le_trans a x (y ∷ ys) e h = (order.trans a x y e h.0, All-le_trans a x ys e h.1)

    insert_sorted-IsSorted : (a : A) (xs : List A) → IsSorted xs → IsSorted (insert_sorted a xs)
    unfolding insert_sorted
    insert_sorted-IsSorted a [] h = (tt, tt)
    insert_sorted-IsSorted a (x ∷ xs) h = elim (Bool-cases (le a x)) [
      | inl e ↦ rw e ((e, All-le_trans a x xs e h.0), h)
      | inr e ↦
          let f : le x a ≡ true = ground (arith, order.total a x) in
          rw e (All-insert_sorted (λ y. le x y ≡ true) a xs f h.0, insert_sorted-IsSorted a xs h.1)
    ]

    -- Every row comes before all later ones in the order.
    pub sort_by-IsSorted : (xs : List A) → IsSorted (sort_by xs)
    unfolding sort_by
    sort_by-IsSorted [] = tt
    sort_by-IsSorted (x ∷ xs) = insert_sorted-IsSorted x (sort_by xs) (sort_by-IsSorted xs)
