-- ===== src/Packages/Versions.antt =====
-- What an import adds: one new version, which is the active one.
use judgeloom_core.Base.{
  ℕ, suc, ◌+◌, ◌≤◌, ◌<◌, ◌≡◌, refl, subst, arith, ◌==◌, Bool, true, false, ◌&&◌, Bool-cases, inl,
  inr, none, if◌then◌else◌, List, [], ◌∷◌, update_where, count_where, All, All-update_where,
  All-weaken, All-every, All-append, count_where-update_le, count_where-none, count_where-add,
  select-none,
}
use judgeloom_core.Base.Text.{Text, text_eq, text_eq_sound}
use judgeloom_core.Packages.Json.{Fields}
use judgeloom_core.Packages.Archive.{Upload}
use judgeloom_core.Packages.Cases.{ProblemInfo, TestCase}
use judgeloom_core.Packages.Imports.{
  PackageRow, Depot, set_active, find_package, max_version, add_package,
}
use judgeloom_core.Packages.Keys.{
  IsDepot, is_active_of, has_version, has_digest, flag_update, le_trans,
}

abbrev switched_off : ProblemInfo → Bool → List PackageRow → List PackageRow
switched_off p active rs =
    if active
    then update_where (λ r. r.problem_id == p.id && r.is_active) (set_active false) rs
    else rs

switched_off-kept :
    (t : PackageRow → Bool) (p : ProblemInfo) (active : Bool) (rs : List PackageRow)
    → ((b : Bool) (r : PackageRow) → t (set_active b r) ≡ t r)
    → count_where t (switched_off p active rs) ≤ count_where t rs
switched_off-kept t p true rs kept = flag_update t _ false rs (kept false)
switched_off-kept t p false rs kept = omega arith

stays_off :
    (k : ℕ) (p : ProblemInfo) (r : PackageRow)
    → is_active_of k (if r.problem_id == p.id && r.is_active then set_active false r else r) ≡ true
    → is_active_of k r ≡ true
stays_off k p r h = ground arith

switched_off-active :
    (k : ℕ) (p : ProblemInfo) (active : Bool) (rs : List PackageRow)
    → count_where (is_active_of k) (switched_off p active rs) ≤ count_where (is_active_of k) rs
switched_off-active k p true rs =
    count_where-update_le (is_active_of k) (is_active_of k) _ (set_active false) rs
      (All-every _ rs (λ r. stays_off k p r))
switched_off-active k p false rs = omega arith

pub no_more_active :
    (p : ProblemInfo) (rs : List PackageRow)
    → All
        (λ r. is_active_of p.id r ≡ false)
        (update_where (λ r. r.problem_id == p.id && r.is_active) (set_active false) rs)
no_more_active p [] = tt
no_more_active p (r ∷ rs) = (ground arith, no_more_active p rs)

grows_here :
    (k : ℕ) (r : PackageRow) (rs : List PackageRow)
    → (r.problem_id == k) ≡ true
    → r.version ≤ max_version k (r ∷ rs)
grows_here k r rs t = rw t (omega arith)

grows : (k : ℕ) (r : PackageRow) (rs : List PackageRow) → max_version k rs ≤ max_version k (r ∷ rs)
grows k r rs = elim (Bool-cases (r.problem_id == k)) [
  | inl t ↦ rw t (omega arith)
  | inr f ↦ rw f (omega arith)
]

-- No version of a problem is above the greatest.
below_max :
    (k : ℕ) (rs : List PackageRow)
    → All (λ r. (r.problem_id == k) ≡ true → r.version ≤ max_version k rs) rs
below_max k [] = tt
below_max k (r ∷ rs) = (
  λ t. grows_here k r rs t,
  All-weaken (λ s h t. le_trans _ _ _ (h t) (grows k r rs)) rs (below_max k rs),
)

to_zero : {a b : ℕ} → a ≤ b → b ≡ 0 → a ≡ 0
to_zero h e = omega (arith, h, e)

All-switched_off {κ} :
    (P : PackageRow → Type κ) (p : ProblemInfo) (active : Bool) (rs : List PackageRow)
    → ((b : Bool) (r : PackageRow) → P r → P (set_active b r))
    → All P rs
    → All P (switched_off p active rs)
All-switched_off P p true rs kept h =
    All-update_where P _ (set_active false) (λ r _ x. kept false r x) rs h
All-switched_off P p false rs kept h = h

no_other_id :
    (i : ℕ) (db : Depot)
    → IsDepot db
    → (db.next_id == i) ≡ true
    → count_where (λ r. r.id == i) db.packages ≡ 0
no_other_id i db h t =
    count_where-none (λ r. r.id == i) db.packages
      (All-weaken (λ r lt. ground arith) db.packages h.fresh)

no_other_active :
    (k : ℕ) (p : ProblemInfo) (active : Bool) (rs : List PackageRow)
    → ((p.id == k) && active) ≡ true
    → count_where (is_active_of k) (switched_off p active rs) ≡ 0
no_other_active k p true rs t =
    let own : p.id ≡ k = ground arith in
    count_where-none (is_active_of k) (switched_off p true rs) (
      subst (λ i. All (λ r. is_active_of i r ≡ false) (switched_off p true rs)) own
        (no_more_active p rs))
no_other_active k p false rs t = absurd (ground arith)

no_other_version :
    (k v : ℕ) (p : ProblemInfo) (rs : List PackageRow)
    → ((p.id == k) && (max_version p.id rs + 1 == v)) ≡ true
    → count_where (has_version k v) rs ≡ 0
no_other_version k v p rs t =
    count_where-none (has_version k v) rs
      (All-weaken (λ r le. other k v p rs r t le) rs (below_max p.id rs))
  where
    other :
        (k v : ℕ) (p : ProblemInfo) (rs : List PackageRow) (r : PackageRow)
        → ((p.id == k) && (max_version p.id rs + 1 == v)) ≡ true
        → ((r.problem_id == p.id) ≡ true → r.version ≤ max_version p.id rs)
        → has_version k v r ≡ false
    other k v p rs r t le = ground arith

no_other_digest :
    (k : ℕ) (d : Text) (p : ProblemInfo) (sha : Text) (db : Depot)
    → find_package p.id sha db ≡ none
    → ((p.id == k) && text_eq sha d) ≡ true
    → count_where (has_digest k d) db.packages ≡ 0
no_other_digest k d p sha db new t =
    let same : sha ≡ d = text_eq_sound sha d (ground arith) in
    let own : p.id ≡ k = ground arith in
    count_where-none (has_digest k d) db.packages (
      subst (λ i. All (λ r. has_digest i d r ≡ false) db.packages) own
        (subst (λ e. All (λ r. has_digest p.id e r ≡ false) db.packages) same
          (select-none (has_digest p.id sha) db.packages new)))

pub add_package-IsDepot :
    (p : ProblemInfo) (upload : Upload) (active : Bool) (manifest : Fields) (cases : List TestCase)
    (db : Depot)
    → IsDepot db
    → find_package p.id upload.sha256 db ≡ none
    → IsDepot (add_package p upload active manifest cases db).0
unfolding add_package
add_package-IsDepot p upload active manifest cases db h new = record {
  fresh =
      All-append (λ r. r.id < suc db.next_id) (switched_off p active db.packages) _
        (All-switched_off (λ r. r.id < suc db.next_id) p active db.packages (λ b r lt. lt)
          (All-weaken (λ r lt. omega (arith, lt)) db.packages h.fresh))
        (omega arith, tt);
  unique_id = λ i.
      count_where-add (λ r. r.id == i) (switched_off p active db.packages) _
        (le_trans _ _ _ (switched_off-kept (λ r. r.id == i) p active db.packages (λ b r. refl))
          (h.unique_id i))
        (λ t.
          to_zero (switched_off-kept (λ r. r.id == i) p active db.packages (λ b r. refl))
            (no_other_id i db h t));
  one_active = λ k.
      count_where-add (is_active_of k) (switched_off p active db.packages) _
        (le_trans _ _ _ (switched_off-active k p active db.packages) (h.one_active k))
        (λ t. no_other_active k p active db.packages t);
  unique_version = λ k v.
      count_where-add (has_version k v) (switched_off p active db.packages) _
        (le_trans _ _ _ (switched_off-kept (has_version k v) p active db.packages (λ b r. refl))
          (h.unique_version k v))
        (λ t.
          to_zero (switched_off-kept (has_version k v) p active db.packages (λ b r. refl))
            (no_other_version k v p db.packages t));
  unique_digest = λ k d.
      count_where-add (has_digest k d) (switched_off p active db.packages) _
        (le_trans _ _ _ (switched_off-kept (has_digest k d) p active db.packages (λ b r. refl))
          (h.unique_digest k d))
        (λ t.
          to_zero (switched_off-kept (has_digest k d) p active db.packages (λ b r. refl))
            (no_other_digest k d p upload.sha256 db new t));
}
