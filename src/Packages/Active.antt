-- ===== src/Packages/Active.antt =====
-- A problem has at most one active package, whatever is imported or activated.
use judgeloom_core.Base.{
  ℕ, ◌≤◌, ◌<◌, ◌≡◌, refl, ap, arith, ◌==◌, ==_iff, Bool, true, false, not, ◌&&◌, ◌||◌, Bool-cases,
  inl, inr, some, if◌then◌else◌, List, first, select, update_where, count_where, All-update_where,
  All-weaken, All-every, count_where-update_le, count_where-found, count_where-update_ge,
  first_unique, All-update_each,
}
use judgeloom_core.Packages.Imports.{PackageRow, Depot, set_active, activate}
use judgeloom_core.Packages.Keys.{
  is_active_of, has_version, has_digest, IsDepot, le_trans, activate-kept, absurd_bool, named_row,
}

-- The rows when `activate` has switched the others off.
abbrev others_off : PackageRow → List PackageRow → List PackageRow
others_off row rs =
    update_where (λ r. r.problem_id == row.problem_id && not (r.id == row.id)) (set_active false) rs

abbrev can_be_active : ℕ → ℕ → PackageRow → Bool
can_be_active k i r = r.problem_id == k && (r.is_active || r.id == i)

turned_on :
    (k i : ℕ) (r : PackageRow)
    → is_active_of k (if r.id == i then set_active true r else r) ≡ true
    → can_be_active k i r ≡ true
turned_on k i r h = ground arith

turned_off :
    (k : ℕ) (row : PackageRow)
    → (row.problem_id == k) ≡ true
    → (r : PackageRow)
    → can_be_active k row.id
        (if r.problem_id == row.problem_id && not (r.id == row.id) then set_active false r else r)
      ≡ true
    → (r.id == row.id) ≡ true
turned_off k row own r h = ground arith

untouched_on :
    (k : ℕ) (row : PackageRow)
    → (row.problem_id == k) ≡ false
    → (r : PackageRow) → ((r.id == row.id) ≡ true → r.problem_id ≡ row.problem_id)
    → is_active_of k (if r.id == row.id then set_active true r else r) ≡ true
    → is_active_of k r ≡ true
untouched_on k row other r named h = ground arith

untouched_off :
    (k : ℕ) (row r : PackageRow)
    → is_active_of k
        (if r.problem_id == row.problem_id && not (r.id == row.id) then set_active false r else r)
      ≡ true
    → is_active_of k r ≡ true
untouched_off k row r h = ground arith

-- The active package of the problem of the row is the row, and that of any other as before.
activate-one_active :
    (q : PackageRow → Bool) (row : PackageRow) (db : Depot)
    → IsDepot db
    → first (select q db.packages) ≡ some row
    → (k : ℕ) → count_where (is_active_of k) (activate row db).packages ≤ 1
unfolding activate
activate-one_active q row db h found k = elim (Bool-cases (row.problem_id == k)) [
  | inl own ↦
      le_trans _ _ _
        (count_where-update_le (is_active_of k) (can_be_active k row.id) (λ r. r.id == row.id)
          (set_active true) (others_off row db.packages)
          (All-every _ (others_off row db.packages) (λ r. turned_on k row.id r)))
        (le_trans _ _ _
          (count_where-update_le (can_be_active k row.id) (λ r. r.id == row.id)
            (λ r. r.problem_id == row.problem_id && not (r.id == row.id)) (set_active false)
            db.packages (All-every _ db.packages (λ r. turned_off k row own r)))
          (h.unique_id row.id))
  | inr other ↦
      le_trans _ _ _
        (count_where-update_le (is_active_of k) (is_active_of k) (λ r. r.id == row.id)
          (set_active true) (others_off row db.packages)
          (All-weaken (λ r named. untouched_on k row other r named) (others_off row db.packages)
            (All-update_where (λ r. (r.id == row.id) ≡ true → r.problem_id ≡ row.problem_id) _
              (set_active false) (λ r _ named. named) db.packages
              (All-weaken (λ r is t. ap (λ r. r.problem_id) (is t)) db.packages
                (named_row q db.packages row found (h.unique_id row.id))))))
        (le_trans _ _ _
          (count_where-update_le (is_active_of k) (is_active_of k)
            (λ r. r.problem_id == row.problem_id && not (r.id == row.id)) (set_active false)
            db.packages (All-every _ db.packages (λ r. untouched_off k row r)))
          (h.one_active k))
]

pub activate-IsDepot :
    (q : PackageRow → Bool) (row : PackageRow) (db : Depot)
    → IsDepot db
    → first (select q db.packages) ≡ some row
    → IsDepot (activate row db)
unfolding activate
activate-IsDepot q row db h found = record {
  fresh =
      All-update_where (λ r. r.id < db.next_id) _ (set_active true) (λ r _ lt. lt)
        (others_off row db.packages)
        (All-update_where (λ r. r.id < db.next_id) _ (set_active false) (λ r _ lt. lt) db.packages
          h.fresh);
  unique_id =
      λ i. le_trans _ _ _ (activate-kept (λ r. r.id == i) row db (λ b r. refl)) (h.unique_id i);
  one_active = activate-one_active q row db h found;
  unique_version = λ k v.
      le_trans _ _ _ (activate-kept (has_version k v) row db (λ b r. refl)) (h.unique_version k v);
  unique_digest = λ k d.
      le_trans _ _ _ (activate-kept (has_digest k d) row db (λ b r. refl)) (h.unique_digest k d);
}

-- What is known of a row when the others are off.
abbrev IsSettled : ℕ → PackageRow → PackageRow → Type 0
IsSettled k row r =
    ((r.id == row.id) ≡ true → r ≡ row) × ((r.id == row.id) ≡ false → is_active_of k r ≡ false)

settles :
    (k : ℕ) (row r : PackageRow)
    → row.problem_id ≡ k
    → ((r.id == row.id) ≡ true → r ≡ row)
    → IsSettled k row
        (if r.problem_id == row.problem_id && not (r.id == row.id) then set_active false r else r)
settles k row r own is = elim (Bool-cases (r.id == row.id)) [
  | inl t ↦ rw (t, and_false (r.problem_id == row.problem_id)) (is, λ f. absurd_bool t f)
  | inr f ↦ elim (Bool-cases (r.problem_id == row.problem_id)) [
    | inl s ↦ rw (s, f) (λ t. absurd_bool t f, λ _. ground arith)
    | inr g ↦ rw g (λ t. absurd_bool t f, λ _. ground arith)
  ]
]
  where
    and_false : (b : Bool) → (b && false) ≡ false
    and_false true = refl
    and_false false = refl

activated :
    (k : ℕ) (row r : PackageRow)
    → IsSettled k row r
    → is_active_of k (if r.id == row.id then set_active true r else r) ≡ true
    → (if r.id == row.id then set_active true r else r) ≡ set_active true row
activated k row r h = elim (Bool-cases (r.id == row.id)) [
  | inl t ↦ rw t (λ _. ap (set_active true) (h.0 t))
  | inr f ↦ rw f (λ t. absurd_bool t (h.1 f))
]

abbrev off : PackageRow → PackageRow → PackageRow
off row r = if r.problem_id == row.problem_id && not (r.id == row.id) then set_active false r else r

remains :
    (row r : PackageRow)
    → ((r.id == row.id) ≡ true → r ≡ row)
    → (r.id == row.id) ≡ true
    → ((off row r).id == row.id && (off row r).problem_id == row.problem_id) ≡ true
remains row r is t =
    let same : r.problem_id ≡ row.problem_id = ap (λ r. r.problem_id) (is t) in ground arith

switched_on :
    (k : ℕ) (row r : PackageRow)
    → (r.id == row.id && r.problem_id == k) ≡ true
    → is_active_of k (if r.id == row.id then set_active true r else r) ≡ true
switched_on k row r t = ground arith

-- The package that was activated is the active one of its problem.
pub activate-active :
    (q : PackageRow → Bool) (row : PackageRow) (db : Depot)
    → IsDepot db
    → first (select q db.packages) ≡ some row
    → first (select (is_active_of row.problem_id) (activate row db).packages)
      ≡ some (set_active true row)
unfolding activate
activate-active q row db h found =
    let k = row.problem_id in
    let named = named_row q db.packages row found (h.unique_id row.id) in
    first_unique (is_active_of k) (set_active true row) (activate row db).packages
      (All-update_each (IsSettled k row) (λ r. is_active_of k r ≡ true → r ≡ set_active true row)
        (λ r. r.id == row.id) (set_active true) (others_off row db.packages)
        (λ r s. activated k row r s)
        (All-update_each (λ r. (r.id == row.id) ≡ true → r ≡ row) (IsSettled k row)
          (λ r. r.problem_id == row.problem_id && not (r.id == row.id)) (set_active false)
          db.packages (λ r is. settles k row r refl is) named))
      (le_trans _ _ _
        (count_where-found q (λ r. r.id == row.id) db.packages found
          ((==_iff row.id row.id).1 refl))
        (le_trans _ _ _
          (count_where-update_ge (λ r. r.id == row.id && r.problem_id == k) (λ r. r.id == row.id)
            (λ r. r.problem_id == row.problem_id && not (r.id == row.id)) (set_active false)
            db.packages (All-weaken (λ r is t. remains row r is t) db.packages named))
          (count_where-update_ge (is_active_of k) (λ r. r.id == row.id && r.problem_id == k)
            (λ r. r.id == row.id) (set_active true) (others_off row db.packages)
            (All-every _ (others_off row db.packages) (λ r. switched_on k row r)))))
