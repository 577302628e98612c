-- ===== src/Packages/Keys.antt =====
-- Sound rows of packages, and what changes of their flags keep.
use judgeloom_core.Base.{
  ℕ, suc, ◌≤◌, ◌<◌, ◌≡◌, refl, sym, ap, ◌∙◌, arith, ◌==◌, ==_iff, Bool, true, false, not, ◌&&◌,
  Bool-cases, inl, inr, some, if◌then◌else◌, List, [], ◌∷◌, first, select, select_keep, select_skip,
  update_where, count_where, All, All-weaken, All-every, count_where-update_le, count_where-found,
  count_where-zero,
}
use judgeloom_core.Base.Text.{Text, text_eq}
use judgeloom_core.Packages.Imports.{PackageRow, Depot, set_active, activate}

abbrev pub is_active_of : ℕ → PackageRow → Bool
is_active_of k r = r.problem_id == k && r.is_active

abbrev pub has_version : ℕ → ℕ → PackageRow → Bool
has_version k v r = r.problem_id == k && r.version == v

abbrev pub has_digest : ℕ → Text → PackageRow → Bool
has_digest k d r = r.problem_id == k && text_eq r.sha256 d

-- Primary keys are new and name one row each; and a problem has at most one active package, one of
-- each version, and one of each content.
pub record IsDepot (db : Depot) : Type 0 where
  pub fresh : All (λ r. r.id < db.next_id) db.packages
  pub unique_id : (i : ℕ) → count_where (λ r. r.id == i) db.packages ≤ 1
  pub one_active : (k : ℕ) → count_where (is_active_of k) db.packages ≤ 1
  pub unique_version : (k v : ℕ) → count_where (has_version k v) db.packages ≤ 1
  pub unique_digest : (k : ℕ) (d : Text) → count_where (has_digest k d) db.packages ≤ 1

-- A test that does not read the flag counts as before when flags change.
pub flag_update :
    (p q : PackageRow → Bool) (b : Bool) (rs : List PackageRow)
    → ((r : PackageRow) → p (set_active b r) ≡ p r)
    → count_where p (update_where q (set_active b) rs) ≤ count_where p rs
flag_update p q b rs same =
    count_where-update_le p p q (set_active b) rs (All-every _ rs (λ r. kept r (q r)))
  where
    kept : (r : PackageRow) (t : Bool) → p (if t then set_active b r else r) ≡ true → p r ≡ true
    kept r true h = sym (same r) ∙ h
    kept r false h = h

abbrev IsKept : (PackageRow → Bool) → Type 0
IsKept p = (b : Bool) (r : PackageRow) → p (set_active b r) ≡ p r

pub le_trans : (a b c : ℕ) → a ≤ b → b ≤ c → a ≤ c
le_trans a b c h g = omega arith

-- Two updates of flags, as `activate` makes them.
pub activate-kept :
    (p : PackageRow → Bool) (row : PackageRow) (db : Depot)
    → IsKept p
    → count_where p (activate row db).packages ≤ count_where p db.packages
unfolding activate
activate-kept p row db kept =
    le_trans _ _ _
      (flag_update p (λ r. r.id == row.id) true
        (update_where (λ r. r.problem_id == row.problem_id && not (r.id == row.id))
          (set_active false) db.packages)
        (kept true))
      (flag_update p (λ r. r.problem_id == row.problem_id && not (r.id == row.id)) false db.packages
        (kept false))

pub absurd_bool {ℓ} : {P : Type ℓ} {b : Bool} → b ≡ true → b ≡ false → P
absurd_bool t f = absurd (ground arith)

row_injective : (x p : PackageRow) → some x ≡ some p → x ≡ p
row_injective x p e = cc

first_named :
    (x : PackageRow) (xs : List PackageRow) (p : PackageRow)
    → x ≡ p
    → count_where (λ r. r.id == p.id) (x ∷ xs) ≤ 1
    → All (λ r. (r.id == p.id) ≡ true → r ≡ p) (x ∷ xs)
first_named x xs p same le =
    let own : (x.id == p.id) ≡ true = (==_iff x.id p.id).1 (ap (λ r. r.id) same) in
    let le' : suc (count_where (λ r. r.id == p.id) xs) ≤ 1 = rw own at le in
    (
      λ _. same,
      All-weaken (λ r f t. absurd_bool t f) xs
          (count_where-zero (λ r. r.id == p.id) xs (omega (arith, le'))),
    )

later_named :
    (x : PackageRow) (xs : List PackageRow) (p : PackageRow)
    → count_where (λ r. r.id == p.id) (x ∷ xs) ≤ 1
    → 1 ≤ count_where (λ r. r.id == p.id) xs
    → (count_where (λ r. r.id == p.id) xs ≤ 1 → All (λ r. (r.id == p.id) ≡ true → r ≡ p) xs)
    → All (λ r. (r.id == p.id) ≡ true → r ≡ p) (x ∷ xs)
later_named x xs p le there rest = elim (Bool-cases (x.id == p.id)) [
  | inl t ↦
      let le' : suc (count_where (λ r. r.id == p.id) xs) ≤ 1 = rw t at le in
      absurd (omega (arith, le', there))
  | inr f ↦
      let le' : count_where (λ r. r.id == p.id) xs ≤ 1 = rw f at le in
      (λ t. absurd_bool t f, rest le')
]

-- The row that an id names, where it names one.
pub named_row :
    (q : PackageRow → Bool) (rs : List PackageRow) (p : PackageRow)
    → first (select q rs) ≡ some p
    → count_where (λ r. r.id == p.id) rs ≤ 1
    → All (λ r. (r.id == p.id) ≡ true → r ≡ p) rs
named_row q [] p e le = tt
named_row q (x ∷ xs) p e le = elim (Bool-cases (q x)) [
  | inl t ↦ first_named x xs p (row_injective x p (ap first (sym (select_keep q x xs t)) ∙ e)) le
  | inr f ↦
      let rest : first (select q xs) ≡ some p = ap first (sym (select_skip q x xs f)) ∙ e in
      let there = count_where-found q (λ r. r.id == p.id) xs rest ((==_iff p.id p.id).1 refl) in
      later_named x xs p le there (named_row q xs p rest)
]
