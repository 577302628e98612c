-- ===== src/Base/Counts.antt =====
-- How often rows pass a test.
use Prim.Native.Nat.{ℕ, suc, ◌+◌, ◌≤◌}
use mathlib.Core.Path.{◌≡◌, refl, sym, ap, ◌∙◌}
use mathlib.Core.Bool.{Bool, true, false}
use mathlib.Core.List.{List, [], ◌∷◌, ◌++◌}
use mathlib.Core.Option.{none, some}
use native.Mathlib.Omega.{arith}
use mathlib.Core.Logic.{inl, inr}
use judgeloom_core.Base.Tests.{if◌then◌else◌, ◌==◌, Bool-cases}
use judgeloom_core.Base.Lists.{
  count_where, update_where, All, select, first, select_keep, select_skip,
}

module _ {ℓ} {A : Type ℓ} where
  pub count_where-append :
      (p : A → Bool) (xs ys : List A)
      → count_where p (xs ++ ys) ≡ count_where p xs + count_where p ys
  count_where-append p [] ys = omega arith
  count_where-append p (x ∷ xs) ys = ground (arith, count_where-append p xs ys)

  -- At most as many rows pass after an update as passed another test before, where each row that
  -- passes after it passed that test.
  pub count_where-update_le :
      (p r q : A → Bool) (f : A → A) (xs : List A)
      → All (λ x. p (if q x then f x else x) ≡ true → r x ≡ true) xs
      → count_where p (update_where q f xs) ≤ count_where r xs
  count_where-update_le p r q f [] h = omega arith
  count_where-update_le p r q f (x ∷ xs) h =
      let rest = count_where-update_le p r q f xs h.1 in
      elim (Bool-cases (p (if q x then f x else x))) [
        | inl t ↦ rw (t, h.0 t) (omega (arith, rest))
        | inr g ↦ rw g (skipped (r x) rest)
      ]
    where
      skipped : {m n : ℕ} (b : Bool) → m ≤ n → m ≤ (if b then suc n else n)
      skipped true h = omega (arith, h)
      skipped false h = h

  pub All-every {κ} : (P : A → Type κ) (xs : List A) → ((x : A) → P x) → All P xs
  All-every P [] h = tt
  All-every P (x ∷ xs) h = (h x, All-every P xs h)

  -- A row that is found counts.
  pub count_where-found :
      (p q : A → Bool) (xs : List A) {a : A}
      → first (select p xs) ≡ some a
      → q a ≡ true
      → 1 ≤ count_where q xs
  count_where-found p q [] e t = cc
  count_where-found p q (x ∷ xs) {a} e t = elim (Bool-cases (p x)) [
    | inl own ↦
        let same : some x ≡ some a = ap first (sym (select_keep p x xs own)) ∙ e in
        counted (q x) (count_where q xs) (passes x a same t)
    | inr other ↦
        more (q x) (count_where-found p q xs (ap first (sym (select_skip p x xs other)) ∙ e) t)
  ]
    where
      passes : (x a : A) → some x ≡ some a → q a ≡ true → q x ≡ true
      passes x a same t = cc

      counted : (b : Bool) (n : ℕ) → b ≡ true → 1 ≤ (if b then suc n else n)
      counted b n h = rw h (omega arith)

      more : {n : ℕ} (b : Bool) → 1 ≤ n → 1 ≤ (if b then suc n else n)
      more true h = omega arith
      more false h = h

  pub All-append {κ} : (P : A → Type κ) (xs ys : List A) → All P xs → All P ys → All P (xs ++ ys)
  All-append P [] ys h g = g
  All-append P (x ∷ xs) ys h g = (h.0, All-append P xs ys h.1 g)

  pub count_where-none :
      (p : A → Bool) (xs : List A) → All (λ x. p x ≡ false) xs → count_where p xs ≡ 0
  count_where-none p [] h = refl
  count_where-none p (x ∷ xs) h = rw (h.0) (count_where-none p xs h.1)

  -- A new row that is the only one to pass.
  pub count_where-add :
      (p : A → Bool) (xs : List A) (a : A)
      → count_where p xs ≤ 1
      → (p a ≡ true → count_where p xs ≡ 0)
      → count_where p (xs ++ a ∷ []) ≤ 1
  count_where-add p xs a le alone = elim (Bool-cases (p a)) [
    | inl t ↦ omega (arith, count_where-append p xs (a ∷ []), one t, alone t)
    | inr f ↦ omega (arith, count_where-append p xs (a ∷ []), zero_of f, le)
  ]
    where
      one : p a ≡ true → count_where p (a ∷ []) ≡ 1
      one t = rw t refl

      zero_of : p a ≡ false → count_where p (a ∷ []) ≡ 0
      zero_of f = rw f refl

  pub select-none :
      (p : A → Bool) (xs : List A) → first (select p xs) ≡ none → All (λ x. p x ≡ false) xs
  select-none p [] e = tt
  select-none p (x ∷ xs) e = elim (Bool-cases (p x)) [
    | inl t ↦ differ (ap first (sym (select_keep p x xs t)) ∙ e)
    | inr f ↦ (f, select-none p xs (ap first (sym (select_skip p x xs f)) ∙ e))
  ]
    where
      differ : some x ≡ none → All (λ x. p x ≡ false) (x ∷ xs)
      differ e = absurd (cc)

  -- No row passes where none counts.
  pub count_where-zero :
      (p : A → Bool) (xs : List A) → count_where p xs ≡ 0 → All (λ x. p x ≡ false) xs
  count_where-zero p [] h = tt
  count_where-zero p (x ∷ xs) h = ground (arith, count_where-zero p xs)

  pub All-update_each {κ μ} :
      (P : A → Type κ) (Q : A → Type μ) (q : A → Bool) (f : A → A) (xs : List A)
      → ((x : A) → P x → Q (if q x then f x else x))
      → All P xs
      → All Q (update_where q f xs)
  All-update_each P Q q f [] each h = tt
  All-update_each P Q q f (x ∷ xs) each h = (each x h.0, All-update_each P Q q f xs each h.1)

  -- At least as many rows pass after an update as passed another test before.
  pub count_where-update_ge :
      (p r q : A → Bool) (f : A → A) (xs : List A)
      → All (λ x. r x ≡ true → p (if q x then f x else x) ≡ true) xs
      → count_where r xs ≤ count_where p (update_where q f xs)
  count_where-update_ge p r q f [] h = omega arith
  count_where-update_ge p r q f (x ∷ xs) h =
      let rest = count_where-update_ge p r q f xs h.1 in
      elim (Bool-cases (r x)) [
        | inl t ↦ rw (t, h.0 t) (omega (arith, rest))
        | inr g ↦ rw g (skipped (p (if q x then f x else x)) rest)
      ]
    where
      skipped : {m n : ℕ} (b : Bool) → m ≤ n → m ≤ (if b then suc n else n)
      skipped true h = omega (arith, h)
      skipped false h = h

  -- The only row that can pass is the first, where one does.
  pub first_unique :
      (p : A → Bool) (a : A) (xs : List A)
      → All (λ x. p x ≡ true → x ≡ a) xs
      → 1 ≤ count_where p xs
      → first (select p xs) ≡ some a
  first_unique p a [] h some_row = absurd (omega (arith, some_row))
  first_unique p a (x ∷ xs) h some_row = elim (Bool-cases (p x)) [
    | inl t ↦ ap first (select_keep p x xs t) ∙ ap some (h.0 t)
    | inr f ↦
        let there : 1 ≤ count_where p xs = rw f at some_row in
        ap first (select_skip p x xs f) ∙ first_unique p a xs h.1 there
  ]

  -- A new row behind rows that do not pass is the first.
  pub first-add :
      (p : A → Bool) (xs : List A) (a : A)
      → All (λ x. p x ≡ false) xs
      → p a ≡ true
      → first (select p (xs ++ a ∷ [])) ≡ some a
  first-add p [] a h t = rw t refl
  first-add p (x ∷ xs) a h t =
      ap first (select_skip p x (xs ++ a ∷ []) h.0) ∙ first-add p xs a h.1 t

  -- The first row that passes, when rows change that pass as before.
  pub first-update_each :
      (p q : A → Bool) (f : A → A) (xs : List A) {a : A}
      → ((x : A) → p (f x) ≡ p x)
      → first (select p xs) ≡ some a
      → first (select p (update_where q f xs)) ≡ some (if q a then f a else a)
  first-update_each p q f [] keeps e = cc
  first-update_each p q f (x ∷ xs) {a} keeps e = elim (Bool-cases (p x)) [
    | inl t ↦
        ap first (select_keep p (if q x then f x else x) (update_where q f xs) (kept (q x) ∙ t))
        ∙ ap (λ r. some (if q r then f r else r)) (same (ap first (sym (select_keep p x xs t)) ∙ e))
    | inr g ↦
        ap first (select_skip p (if q x then f x else x) (update_where q f xs) (kept (q x) ∙ g))
        ∙ first-update_each p q f xs keeps (ap first (sym (select_skip p x xs g)) ∙ e)
  ]
    where
      kept : (b : Bool) → p (if b then f x else x) ≡ p x
      kept true = keeps x
      kept false = refl

      same : some x ≡ some a → x ≡ a
      same e = cc

-- The row of a key, when rows change that keep their keys.
pub row-update_where {ℓ} :
    {A : Type ℓ} (key : A → ℕ) (k : ℕ) (q : A → Bool) (f : A → A) (xs : List A) {a : A}
    → ((x : A) → key (f x) ≡ key x)
    → first (select (λ x. key x == k) xs) ≡ some a
    → first (select (λ x. key x == k) (update_where q f xs)) ≡ some (if q a then f a else a)
row-update_where key k q f xs keeps e =
    first-update_each (λ x. key x == k) q f xs (λ x. ap (λ i. i == k) (keeps x)) e
