-- ===== src/Base/Lists.antt =====
-- Lists measured by native numbers, the Boolean filters of a query, and predicates on all members.
use Prim.Native.Nat.{ℕ, zero, suc, ◌+◌}
use mathlib.Core.Path.{◌≡◌, refl, sym, ap, ◌∙◌, subst}
use mathlib.Core.Bool.{Bool, true, false, ◌||◌}
use mathlib.Core.List.{List, [], ◌∷◌, ◌++◌}
use mathlib.Core.Option.{Option, none, some}
use native.Mathlib.Omega.{arith}
use mathlib.Core.Logic.{inl, inr}
use judgeloom_core.Base.Tests.{if◌then◌else◌, ◌==◌, Bool-cases}

module _ {ℓ} {A : Type ℓ} where
  abbrev pub length : List A → ℕ
  length [] = 0
  length (x ∷ xs) = suc (length xs)

  abbrev pub get_elem? : List A → ℕ → Option A
  get_elem? [] i = none
  get_elem? (x ∷ xs) zero = some x
  get_elem? (x ∷ xs) (suc i) = get_elem? xs i

  abbrev pub take : ℕ → List A → List A
  take zero xs = []
  take (suc n) [] = []
  take (suc n) (x ∷ xs) = x ∷ take n xs

  -- The rows of a query: `objects.filter(...)`.
  abbrev pub select : (A → Bool) → List A → List A
  select p [] = []
  select p (x ∷ xs) = let rest = select p xs in if p x then x ∷ rest else rest

  -- `.first()`
  abbrev pub first : List A → Option A
  first [] = none
  first (x ∷ xs) = some x

  abbrev pub any : (A → Bool) → List A → Bool
  any p [] = false
  any p (x ∷ xs) = p x || any p xs

  -- `.count()`
  abbrev pub count_where : (A → Bool) → List A → ℕ
  count_where p [] = 0
  count_where p (x ∷ xs) = let rest = count_where p xs in if p x then suc rest else rest

  -- `objects.filter(...).update(...)`: the rows that pass are changed in place.
  abbrev pub update_where : (A → Bool) → (A → A) → List A → List A
  update_where p f [] = []
  update_where p f (x ∷ xs) = (if p x then f x else x) ∷ update_where p f xs

  abbrev pub All {κ} : (A → Type κ) → List A → Type κ
  All P [] = Unit
  All P (x ∷ xs) = P x × All P xs

module _ {ℓ} {A : Type ℓ} where
  pub length-append : (xs ys : List A) → length (xs ++ ys) ≡ length xs + length ys
  length-append [] ys = omega arith
  length-append (x ∷ xs) ys = omega (arith, length-append xs ys)

  pub All-update_where {κ} :
      (P : A → Type κ) (p : A → Bool) (f : A → A)
      → ((a : A) → p a ≡ true → P a → P (f a))
      → (xs : List A) → All P xs
      → All P (update_where p f xs)
  All-update_where P p f keep [] h = tt
  All-update_where P p f keep (x ∷ xs) h = (
    elim (Bool-cases (p x)) [ inl e ↦ rw e (keep x e h.0) | inr e ↦ rw e h.0 ],
    All-update_where P p f keep xs h.1,
  )

  pub All-select {κ} :
      (P : A → Type κ) (p : A → Bool) (xs : List A) → All P xs → All P (select p xs)
  All-select P p [] h = tt
  All-select P p (x ∷ xs) h = ground (arith, All-select P p xs h.1)

module _ {ℓ} {A : Type ℓ} where
  pub select_all : (xs : List A) → select (λ x. true) xs ≡ xs
  select_all [] = refl
  select_all (x ∷ xs) = ap (◌∷◌ x) (select_all xs)

  -- Two filters of one query commute.
  pub select_comm : (p q : A → Bool) (xs : List A) → select p (select q xs) ≡ select q (select p xs)
  select_comm p q [] = refl
  select_comm p q (x ∷ xs) = ground (arith, select_comm p q xs)

module _ {ℓ} {A : Type ℓ} where
  pub All-weaken {κ μ} :
      {P : A → Type κ} {Q : A → Type μ}
      → ((a : A) → P a → Q a)
      → (xs : List A) → All P xs
      → All Q xs
  All-weaken f [] h = tt
  All-weaken f (x ∷ xs) h = (f x h.0, All-weaken f xs h.1)

  -- What a query returns passes its filter, and satisfies whatever held of all rows.
  pub select-holds {κ} :
      (P : A → Type κ) (p : A → Bool) (xs : List A)
      → All P xs
      → All (λ a. P a × (p a ≡ true)) (select p xs)
  select-holds P p [] h = tt
  select-holds P p (x ∷ xs) h = ground (arith, select-holds P p xs h.1)

  pub first-holds {κ} : (P : A → Type κ) (xs : List A) {a : A} → All P xs → first xs ≡ some a → P a
  first-holds P [] h e = cc
  first-holds P (x ∷ xs) h e = subst P (cc) h.0

  pub All-trivial : (xs : List A) → All (λ _. Unit {0}) xs
  All-trivial [] = tt
  All-trivial (x ∷ xs) = (tt, All-trivial xs)

-- membership in a many-to-many relation or in an `__in` list
abbrev pub contains : ℕ → List ℕ → Bool
contains k [] = false
contains k (x ∷ xs) = k == x || contains k xs

module _ {ℓ} {A : Type ℓ} where
  pub select_keep :
      (p : A → Bool) (x : A) (xs : List A) → p x ≡ true → select p (x ∷ xs) ≡ x ∷ select p xs
  select_keep p x xs e = rw e refl

  pub select_skip :
      (p : A → Bool) (x : A) (xs : List A) → p x ≡ false → select p (x ∷ xs) ≡ select p xs
  select_skip p x xs e = rw e refl

  -- A query that depends on a test.
  pub All-if {κ} :
      (P : A → Type κ) (test : Bool) (xs ys : List A)
      → (test ≡ true → All P xs)
      → (test ≡ false → All P ys)
      → All P (if test then xs else ys)
  All-if P true xs ys h k = h refl
  All-if P false xs ys h k = k refl

  -- What a query returns passes its filter.
  pub select-passes : (p : A → Bool) (xs : List A) → All (λ a. p a ≡ true) (select p xs)
  select-passes p xs =
      All-weaken (λ a h. h.1) (select p xs) (select-holds (λ _. Unit {0}) p xs (All-trivial xs))

  pub first-passes :
      (p : A → Bool) (xs : List A) {a : A} → first (select p xs) ≡ some a → p a ≡ true
  first-passes p xs e = first-holds (λ a. p a ≡ true) (select p xs) (select-passes p xs) e

  -- A row that is written in place of those that pass is the first that passes.
  pub first-update_where :
      (p : A → Bool) (m : A) (xs : List A) {a : A}
      → p m ≡ true
      → first (select p xs) ≡ some a
      → first (select p (update_where p (λ _. m) xs)) ≡ some m
  first-update_where p m [] pm e = cc
  first-update_where p m (x ∷ xs) pm e = elim (Bool-cases (p x)) [
    | inl t ↦ rw (t, pm) refl
    | inr f ↦ rw f (
        ap first (select_skip p x (update_where p (λ _. m) xs) f)
        ∙ first-update_where p m xs pm (ap first (sym (select_skip p x xs f)) ∙ e))
  ]

  -- The first row that passes is still the first when it is replaced by one that passes, together
  -- with whatever other rows the update catches.
  pub first-update_all :
      (p q : A → Bool) (m : A) (xs : List A) {a : A}
      → p m ≡ true
      → q a ≡ true
      → first (select p xs) ≡ some a
      → first (select p (update_where q (λ _. m) xs)) ≡ some m
  first-update_all p q m [] pm qa e = cc
  first-update_all p q m (x ∷ xs) {a} pm qa e = elim (Bool-cases (q x)) [
    | inl t ↦ rw (t, pm) refl
    | inr f ↦ elim (Bool-cases (p x)) [
      | inl t ↦
          let head : some x ≡ some a = ap first (sym (select_keep p x xs t)) ∙ e in
          absurd (other x a f qa head)
      | inr g ↦ rw f (
          ap first (select_skip p x (update_where q (λ _. m) xs) g)
          ∙ first-update_all p q m xs pm qa (ap first (sym (select_skip p x xs g)) ∙ e))
    ]
  ]
    where
      other : (x a : A) → q x ≡ false → q a ≡ true → some x ≡ some a → ⊥
      other x a f t same = cc

  -- What is found first is still so when rows are added behind it.
  pub first-append :
      (p : A → Bool) (xs ys : List A) {a : A}
      → first (select p xs) ≡ some a
      → first (select p (xs ++ ys)) ≡ some a
  first-append p [] ys e = cc
  first-append p (x ∷ xs) ys e = elim (Bool-cases (p x)) [
    | inl t ↦ ap first (select_keep p x (xs ++ ys) t) ∙ (ap first (sym (select_keep p x xs t)) ∙ e)
    | inr f ↦
        ap first (select_skip p x (xs ++ ys) f)
        ∙ first-append p xs ys (ap first (sym (select_skip p x xs f)) ∙ e)
  ]
