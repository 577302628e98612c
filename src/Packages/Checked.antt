-- ===== src/Packages/Checked.antt =====
-- The test cases that an import stores.
use mathlib.Core.List.{append-nil}
use judgeloom_core.Base.{
  ℕ, ◌≤◌, ◌<◌, ◌≡◌, refl, sym, subst, arith, ◌==◌, Bool, true, false, Option, none, some, List, [],
  ◌++◌, length, map, All, ok, >>=-eq-ok, >>-eq-ok, ok-injective, raise_if-eq-ok, ltb, raise_if,
  validation_error,
}
use judgeloom_core.Base.Sort.{sort_by, All-sort_by}
use judgeloom_core.Base.Text.{Text, codes}
use judgeloom_core.Packages.Json.{Items, Fields, Python, get}
use judgeloom_core.Packages.Paths.{safe_file_names}
use judgeloom_core.Packages.Archive.{
  Entry, Upload, read_manifest, validate_checker, validate_validator,
}
use judgeloom_core.Packages.Cases.{
  ProblemInfo, TestCase, max_test_cases, apply_default_points, listed, manifest_items,
  manifest_listed, manifest_cases,
}
use judgeloom_core.Packages.Files.{add_files, valid_cases, case_order, read_cases, file_cases}
use judgeloom_core.Packages.Groups.{validate_groups}
use judgeloom_core.Packages.Imports.{
  PackageRow, Depot, numbered, total_size, max_uncompressed_bytes, or_file_cases, read_archive,
  activate, add_package, import_zip,
}
use judgeloom_core.Packages.SafeNames.{
  IsSafeName, IsSafeFiles, safe_file_names-IsSafe, apply_default_points-safe, manifest_items-safe,
}
use judgeloom_core.Packages.Safety.{add_files-safe, valid_cases-safe, IsSafeCase, read_cases-safe}
use judgeloom_core.Packages.Outcome.{Outcome, known, added, import_zip-Outcome}

abbrev pub AreSafe : List TestCase → Type 0
AreSafe cases = All (λ c. IsSafeFiles c.files) cases

file_cases-safe :
    (entries : List Entry) (names : List Text) (p : ProblemInfo) (cases : List TestCase)
    → All IsSafeName names
    → file_cases entries names p ≡ ok cases
    → AreSafe cases
unfolding file_cases
file_cases-safe entries names p cases h e =
    let (pairs, paired, with_pairs) = >>=-eq-ok (add_files [] names) _ e in
    let (valid, kept, with_valid) = >>=-eq-ok (valid_cases pairs) _ with_pairs in
    let (_, some_valid) =
      >>-eq-ok
        (raise_if (length valid == 0)
          (validation_error "Archive must contain matching .in and .out/.ans files."))
        _ with_valid in
    let (_, few) =
      >>-eq-ok
        (raise_if (ltb max_test_cases (length valid))
          (validation_error "Archive exceeds maximum allowed test cases."))
        _ some_valid in
    let (rows, read, done) =
      >>=-eq-ok (read_cases entries (sort_by case_order valid))
        (λ cs. ok (apply_default_points p cs)) few in
    subst AreSafe (ok-injective _ _ done) (
      apply_default_points-safe p rows (
        read_cases-safe entries (sort_by case_order valid) rows
          (All-sort_by case_order IsSafeCase valid
            (valid_cases-safe pairs valid (add_files-safe [] pairs names h tt paired) kept))
          read))

abbrev MaybeSafe : Option (List TestCase) → Type 0
MaybeSafe none = Unit
MaybeSafe (some cases) = AreSafe cases

module _ (py : Python) where
  manifest_listed-safe :
      (entries : List Entry) (names : List Text) (p : ProblemInfo) (o : Option Items)
      (found : Option (List TestCase))
      → All IsSafeName names
      → manifest_listed py entries names p o ≡ ok found
      → MaybeSafe found
  unfolding manifest_items apply_default_points
  manifest_listed-safe entries names p none found h e = subst MaybeSafe (ok-injective _ _ e) tt
  manifest_listed-safe entries names p (some items) found h e =
      let (cs, read, done) =
        >>=-eq-ok (manifest_items py entries names items)
          (λ cs. ok (some (apply_default_points p cs))) e in
      subst MaybeSafe (ok-injective _ _ done)
        (apply_default_points-safe p cs (manifest_items-safe py entries names items cs h read))

  manifest_cases-safe :
      (entries : List Entry) (names : List Text) (manifest : Fields) (p : ProblemInfo)
      (found : Option (List TestCase))
      → All IsSafeName names
      → manifest_cases py entries names manifest p ≡ ok found
      → MaybeSafe found
  unfolding manifest_cases
  manifest_cases-safe entries names manifest p found h e =
      manifest_listed-safe entries names p (listed py (get (codes "cases") manifest)) found h e

  or_file_cases-safe :
      (entries : List Entry) (names : List Text) (p : ProblemInfo) (o : Option (List TestCase))
      (cases : List TestCase)
      → All IsSafeName names
      → MaybeSafe o
      → or_file_cases py entries names p o ≡ ok cases
      → AreSafe cases
  unfolding file_cases
  or_file_cases-safe entries names p none cases h m e = file_cases-safe entries names p cases h e
  or_file_cases-safe entries names p (some cs) cases h m e = subst AreSafe (ok-injective _ _ e) m

  -- What is known of the cases of an archive.
  pub record AreChecked (cases : List TestCase) : Type 0 where
    pub some_case : 0 < length cases
    pub few : length cases ≤ max_test_cases
    pub safe : AreSafe cases

  read_archive-AreChecked :
      (entries : List Entry) (p : ProblemInfo) (manifest : Fields) (cases : List TestCase)
      → read_archive py entries p ≡ ok (manifest, cases)
      → AreChecked cases
  unfolding read_archive
  read_archive-AreChecked entries p manifest cases e =
      let (names, safe, with_names) =
        >>=-eq-ok (safe_file_names (map (λ e. e.filename) entries)) _ e in
      let (_, sized) =
        >>-eq-ok
          (raise_if (ltb max_uncompressed_bytes (total_size entries))
            (validation_error "Archive exceeds maximum uncompressed size."))
          _ with_names in
      let (m, _, with_manifest) = >>=-eq-ok (read_manifest entries names) _ sized in
      let (_, with_checker) = >>-eq-ok (validate_checker py m) _ with_manifest in
      let (_, with_validator) = >>-eq-ok (validate_validator py m) _ with_checker in
      let (o, found, with_listed) =
        >>=-eq-ok (manifest_cases py entries names m p) _ with_validator in
      let (cs, chosen, with_cases) = >>=-eq-ok (or_file_cases py entries names p o) _ with_listed in
      let (some_case, nonempty) =
        >>-eq-ok
          (raise_if (length cs == 0)
            (validation_error "Archive must contain matching .in and .out/.ans files."))
          _ with_cases in
      let (few, bounded) =
        >>-eq-ok
          (raise_if (ltb max_test_cases (length cs))
            (validation_error "Archive exceeds maximum allowed test cases."))
          _ nonempty in
      let (defs, _, done) = >>=-eq-ok (validate_groups py m cs) (λ defs. ok (m, cs)) bounded in
      let names_safe = safe_file_names-IsSafe (map (λ e. e.filename) entries) names safe in
      subst (λ (r : Fields × List TestCase). AreChecked r.1) (ok-injective _ _ done)
        (record {
          some_case = not_zero (length cs) (raise_if-eq-ok _ _ some_case);
          few = not_more (length cs) (raise_if-eq-ok _ _ few);
          safe =
              or_file_cases-safe entries names p o cs names_safe
                (manifest_cases-safe entries names m p o names_safe found) chosen;
        })
    where
      not_zero : (n : ℕ) → (n == 0) ≡ false → 0 < n
      not_zero n h = ground arith

      not_more : (n : ℕ) → ltb max_test_cases n ≡ false → n ≤ max_test_cases
      not_more n h = ground arith

  -- The rows of test cases that an import adds.
  Outcome-cases :
      (p : ProblemInfo) (upload : Upload) (active : Bool) {db new : Depot} {row : PackageRow}
      → Outcome py p upload active db new row
      → (cases : List TestCase) × (new.test_cases ≡ db.test_cases ++ numbered row.id 1 cases)
        × (length cases ≤ max_test_cases)
        × AreSafe cases
  unfolding add_package activate
  Outcome-cases p upload true {db} (known row found) =
      ([], sym (append-nil db.test_cases), omega arith, tt)
  Outcome-cases p upload false {db} (known row found) =
      ([], sym (append-nil db.test_cases), omega arith, tt)
  Outcome-cases p upload active (added entries manifest cases _ _ read) =
      let checked = read_archive-AreChecked entries p manifest cases read in
      (cases, refl, checked.few, checked.safe)

  -- An import leaves the stored test cases as they are, and adds those of the new package, numbered
  -- from 1: at most 200, whose files have relative paths that do not leave the archive's directory.
  pub import_zip-cases :
      (p : ProblemInfo) (upload : Upload) (active : Bool) (db new : Depot) (row : PackageRow)
      → import_zip py p upload active db ≡ ok (new, row)
      → (cases : List TestCase) × (new.test_cases ≡ db.test_cases ++ numbered row.id 1 cases)
        × (length cases ≤ max_test_cases)
        × AreSafe cases
  import_zip-cases p upload active db new row e =
      Outcome-cases p upload active (import_zip-Outcome py p upload active db new row e)
