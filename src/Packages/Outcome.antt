-- ===== src/Packages/Outcome.antt =====
-- What an import leaves: sound rows, the imported package as the active one, and checked cases.
use judgeloom_core.Base.{
  ℕ, ◌≡◌, refl, subst, arith, ◌==◌, Bool, true, false, not, ◌&&◌, Option, none, some, if◌then◌else◌,
  List, first, select, first-passes, first-add, ok, ◌>>=◌, >>=-eq-ok, >>-eq-ok, ok-injective, ltb,
  raise_if, validation_error,
}
use judgeloom_core.Base.Text.{Text, codes, text_eq, text_eq_refl, lower, ends_with}
use judgeloom_core.Packages.Json.{Fields, Python}
use judgeloom_core.Packages.Archive.{Entry, Upload}
use judgeloom_core.Packages.Cases.{ProblemInfo, TestCase}
use judgeloom_core.Packages.Imports.{
  PackageRow, Depot, set_active, activate, find_package, add_package, read_archive, or_bad_zip,
  imported, import_zip, max_archive_bytes,
}
use judgeloom_core.Packages.Keys.{IsDepot, is_active_of, has_digest}
use judgeloom_core.Packages.Active.{activate-IsDepot, activate-active}
use judgeloom_core.Packages.Versions.{no_more_active, add_package-IsDepot}

-- The two ways to end: the package was there, or it was read and added.
pub data Outcome (py : Python) (p : ProblemInfo) (upload : Upload) (active : Bool) (db : Depot)
    : Depot → PackageRow → Type 0 where
  known :
      (row : PackageRow)
      → find_package p.id upload.sha256 db ≡ some row
      → Outcome py p upload active db
          (if active then activate row db else db)
          (if active then set_active true row else row)
  added :
      (entries : List Entry) (manifest : Fields) (cases : List TestCase)
      → find_package p.id upload.sha256 db ≡ none
      → upload.entries ≡ some entries
      → read_archive py entries p ≡ ok (manifest, cases)
      → Outcome py p upload active db
          (add_package p upload active manifest cases db).0
          (add_package p upload active manifest cases db).1

is_own : (k : ℕ) → ((k == k) && true) ≡ true
is_own k = ground arith

found_digest :
    (k : ℕ) (d : Text) (row : PackageRow)
    → has_digest k d row ≡ true
    → (row.problem_id ≡ k) × (text_eq row.sha256 d ≡ true)
found_digest k d row h = ground arith

module _ (py : Python) (p : ProblemInfo) (upload : Upload) where
  or_bad_zip-eq-ok :
      (o : Option (List Entry)) {entries : List Entry}
      → or_bad_zip o ≡ ok entries
      → o ≡ some entries
  or_bad_zip-eq-ok none e = cc
  or_bad_zip-eq-ok (some es) e = cc

  imported-Outcome :
      (active : Bool) (db : Depot) (o : Option PackageRow) (new : Depot) (row : PackageRow)
      → find_package p.id upload.sha256 db ≡ o
      → imported py p upload active db o ≡ ok (new, row)
      → Outcome py p upload active db new row
  unfolding read_archive add_package activate
  imported-Outcome active db none new row is e =
      let (entries, unzipped, rest) =
        >>=-eq-ok (or_bad_zip upload.entries)
          (λ es. read_archive py es p >>= λ (r : Fields × List TestCase).
            ok (add_package p upload active r.0 r.1 db))
          e in
      let ((manifest, cases), read, out) =
        >>=-eq-ok (read_archive py entries p)
          (λ (r : Fields × List TestCase). ok (add_package p upload active r.0 r.1 db)) rest in
      subst (λ (r : Depot × PackageRow). Outcome py p upload active db r.0 r.1)
        (ok-injective _ _ out)
        (added entries manifest cases is (or_bad_zip-eq-ok upload.entries unzipped) read)
  imported-Outcome true db (some r) new row is e =
      subst (λ (r : Depot × PackageRow). Outcome py p upload true db r.0 r.1) (ok-injective _ _ e)
        (known r is)
  imported-Outcome false db (some r) new row is e =
      subst (λ (r : Depot × PackageRow). Outcome py p upload false db r.0 r.1) (ok-injective _ _ e)
        (known r is)

  pub import_zip-Outcome :
      (active : Bool) (db new : Depot) (row : PackageRow)
      → import_zip py p upload active db ≡ ok (new, row)
      → Outcome py p upload active db new row
  unfolding import_zip
  import_zip-Outcome active db new row e =
      let (_, named) =
        >>-eq-ok
          (raise_if (not (ends_with (lower upload.name) (codes ".zip")))
            (validation_error "Test data must be a ZIP archive."))
          _ e in
      let (_, small) =
        >>-eq-ok
          (raise_if (ltb max_archive_bytes upload.size)
            (validation_error "Archive exceeds maximum allowed size."))
          _ named in
      imported-Outcome active db (find_package p.id upload.sha256 db) new row refl small

  Outcome-IsDepot :
      (active : Bool) {db new : Depot} {row : PackageRow}
      → Outcome py p upload active db new row
      → IsDepot db
      → IsDepot new
  Outcome-IsDepot true {db} (known row found) h =
      activate-IsDepot (has_digest p.id upload.sha256) row db h found
  Outcome-IsDepot false {db} (known row found) h = h
  Outcome-IsDepot active {db} (added entries manifest cases new _ _) h =
      add_package-IsDepot p upload active manifest cases db h new

  -- After every import a problem has at most one active package, one of each version and one of each
  -- content, and no two packages have one key, if this held before.
  pub import_zip-IsDepot :
      (active : Bool) (db new : Depot) (row : PackageRow)
      → IsDepot db
      → import_zip py p upload active db ≡ ok (new, row)
      → IsDepot new
  import_zip-IsDepot active db new row h e =
      Outcome-IsDepot active (import_zip-Outcome active db new row e) h

  Outcome-active :
      {db new : Depot} {row : PackageRow}
      → Outcome py p upload true db new row
      → IsDepot db
      → (first (select (is_active_of p.id) new.packages) ≡ some row)
        × (text_eq row.sha256 upload.sha256 ≡ true)
  unfolding add_package
  Outcome-active {db} (known row found) h =
      let (own, digest) =
        found_digest p.id upload.sha256 row
          (first-passes (has_digest p.id upload.sha256) db.packages found) in
      (
        subst
            (λ k.
              first (select (is_active_of k) (activate row db).packages)
              ≡ some (set_active true row))
            own (activate-active (has_digest p.id upload.sha256) row db h found),
        digest,
      )
  Outcome-active {db} (added entries manifest cases _ _ _) h = (
    first-add (is_active_of p.id) _ _ (no_more_active p db.packages) (is_own p.id),
    text_eq_refl upload.sha256,
  )

  -- An import that activates returns the package that is the active one of the problem then, and its
  -- content is that of the archive.
  pub import_zip-active :
      (db new : Depot) (row : PackageRow)
      → IsDepot db
      → import_zip py p upload true db ≡ ok (new, row)
      → (first (select (is_active_of p.id) new.packages) ≡ some row)
        × (text_eq row.sha256 upload.sha256 ≡ true)
  import_zip-active db new row h e = Outcome-active (import_zip-Outcome true db new row e) h
