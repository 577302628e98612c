-- ===== src/Packages/Imports.antt =====
-- `PackageImportService.import_zip` and `activate` (apps/problems/services/package_service.py). The
-- archive file itself is left out of the rows.
use judgeloom_core.Base.{
  ℕ, suc, ◌+◌, ◌*◌, max, ltb, ◌==◌, Bool, true, false, not, ◌&&◌, Option, none, some, if◌then◌else◌,
  List, [], ◌∷◌, ◌++◌, map, first, select, update_where, length, Result, ok, err, ◌>>=◌, ◌>>◌,
  raise_if, validation_error,
}
use judgeloom_core.Base.Text.{Text, codes, text_eq, lower, ends_with}
use judgeloom_core.Packages.Json.{Fields, Python}
use judgeloom_core.Packages.Paths.{safe_file_names}
use judgeloom_core.Packages.Archive.{
  Entry, Upload, read_manifest, validate_checker, validate_validator,
}
use judgeloom_core.Packages.Cases.{ProblemInfo, TestCase, max_test_cases, manifest_cases}
use judgeloom_core.Packages.Files.{file_cases}
use judgeloom_core.Packages.Groups.{validate_groups, build_manifest}

pub record PackageRow : Type 0 where
  pub id : ℕ
  pub problem_id : ℕ
  pub version : ℕ
  pub sha256 : Text
  pub manifest : Fields
  pub size_bytes : ℕ
  pub is_active : Bool

pub record TestCaseRow : Type 0 where
  pub package_id : ℕ
  pub order : ℕ
  pub test_case : TestCase

pub record Depot : Type 0 where
  pub next_id : ℕ
  pub packages : List PackageRow
  pub test_cases : List TestCaseRow

abbrev pub max_archive_bytes : ℕ
max_archive_bytes = 64 * 1024 * 1024

abbrev pub max_uncompressed_bytes : ℕ
max_uncompressed_bytes = 256 * 1024 * 1024

abbrev pub set_active : Bool → PackageRow → PackageRow
set_active b r = record r { is_active = b }

-- `activate`
unfoldable pub activate : PackageRow → Depot → Depot
activate p db = record db {
  packages =
      update_where (λ r. r.id == p.id) (set_active true)
        (update_where (λ r. r.problem_id == p.problem_id && not (r.id == p.id)) (set_active false)
          db.packages);
}

-- `filter(problem=problem, sha256=digest).first()`
abbrev pub find_package : ℕ → Text → Depot → Option PackageRow
find_package problem digest db =
    first (select (λ r. r.problem_id == problem && text_eq r.sha256 digest) db.packages)

abbrev pub max_version : ℕ → List PackageRow → ℕ
max_version problem [] = 0
max_version problem (r ∷ rs) =
    if r.problem_id == problem
    then max r.version (max_version problem rs)
    else max_version problem rs

abbrev pub total_size : List Entry → ℕ
total_size [] = 0
total_size (e ∷ es) = e.file_size + total_size es

abbrev pub or_bad_zip : Option (List Entry) → Result (List Entry)
or_bad_zip none = err (validation_error "Invalid ZIP archive.")
or_bad_zip (some es) = ok es

abbrev pub numbered : ℕ → ℕ → List TestCase → List TestCaseRow
numbered pid index [] = []
numbered pid index (c ∷ cs) =
    record { package_id = pid; order = index; test_case = c } ∷ numbered pid (suc index) cs

abbrev pub new_package : ProblemInfo → Upload → Bool → Fields → Depot → PackageRow
new_package p upload active manifest db = record {
  id = db.next_id;
  problem_id = p.id;
  version = max_version p.id db.packages + 1;
  sha256 = upload.sha256;
  manifest = manifest;
  size_bytes = upload.size;
  is_active = active;
}

-- The rows that a new version adds, and those that it makes inactive.
unfoldable pub add_package :
    ProblemInfo → Upload → Bool → Fields → List TestCase → Depot → Depot × PackageRow
unfolding build_manifest
add_package p upload active manifest cases db =
    let row = new_package p upload active (build_manifest p manifest cases) db in
    let others =
      if active
      then update_where (λ r. r.problem_id == p.id && r.is_active) (set_active false) db.packages
      else db.packages in
    (
      record {
        next_id = suc db.next_id;
        packages = others ++ row ∷ [];
        test_cases = db.test_cases ++ numbered row.id 1 cases;
      },
      row,
    )

module _ (py : Python) where
  abbrev pub or_file_cases :
      List Entry → List Text → ProblemInfo → Option (List TestCase) → Result (List TestCase)
  unfolding file_cases
  or_file_cases entries names p none = file_cases entries names p
  or_file_cases entries names p (some cases) = ok cases

  -- What the import reads of an archive: its manifest and its test cases, checked.
  unfoldable pub read_archive : List Entry → ProblemInfo → Result (Fields × List TestCase)
  unfolding safe_file_names read_manifest validate_checker validate_validator manifest_cases
      file_cases validate_groups
  read_archive entries p = do
    names ← safe_file_names (map (λ e. e.filename) entries)
    raise_if (ltb max_uncompressed_bytes (total_size entries))
        (validation_error "Archive exceeds maximum uncompressed size.")
    manifest ← read_manifest entries names
    validate_checker py manifest
    validate_validator py manifest
    listed ← manifest_cases py entries names manifest p
    cases ← or_file_cases entries names p listed
    raise_if (length cases == 0)
        (validation_error "Archive must contain matching .in and .out/.ans files.")
    raise_if (ltb max_test_cases (length cases))
        (validation_error "Archive exceeds maximum allowed test cases.")
    defs ← validate_groups py manifest cases
    ok (manifest, cases)

  abbrev pub imported :
      ProblemInfo → Upload → Bool → Depot → Option PackageRow → Result (Depot × PackageRow)
  unfolding read_archive add_package activate
  imported p upload active db (some row) =
      ok (if active then (activate row db, set_active true row) else (db, row))
  imported p upload active db none = do
    entries ← or_bad_zip upload.entries
    (manifest, cases) ← read_archive entries p
    ok (add_package p upload active manifest cases db)

  -- `import_zip`
  unfoldable pub import_zip : ProblemInfo → Upload → Bool → Depot → Result (Depot × PackageRow)
  unfolding read_archive add_package activate ends_with
  import_zip p upload active db = do
    raise_if (not (ends_with (lower upload.name) (codes ".zip")))
        (validation_error "Test data must be a ZIP archive.")
    raise_if (ltb max_archive_bytes upload.size)
        (validation_error "Archive exceeds maximum allowed size.")
    imported p upload active db (find_package p.id upload.sha256 db)
