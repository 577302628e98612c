-- ===== src/Tests/Packages.antt =====
-- A small archive, imported twice.
use judgeloom_core.Base.{
  ◌≡◌, ◌≤◌, ◌++◌, refl, true, false, none, some, List, [], ◌∷◌, map, length, arith, Result, ok, err,
  validation_error,
}
use judgeloom_core.Base.Text.{Text, codes}
use judgeloom_core.Models.{whole}
use judgeloom_core.Packages.Json.{end, Python}
use judgeloom_core.Packages.Paths.{safe_file_names}
use judgeloom_core.Packages.Archive.{Entry, Upload}
use judgeloom_core.Packages.Cases.{ProblemInfo, TestCase, max_test_cases}
use judgeloom_core.Packages.Imports.{PackageRow, Depot, numbered, import_zip}
use judgeloom_core.Packages.Keys.{IsDepot}
use judgeloom_core.Packages.Outcome.{import_zip-IsDepot}
use judgeloom_core.Packages.Checked.{AreSafe, import_zip-cases}

abbrev python : Python
python = record { shown = λ v. []; read_float = λ t. none }

abbrev entry : Text → Text → Entry
entry name digest = record { filename = name; file_size = 10; sha256 = digest; json = none }

abbrev sums : ProblemInfo
sums = record {
  id = 7;
  code = codes "sums";
  points = whole 10;
  time_limit = whole 1;
  memory_limit = 256;
  partial_score = true;
  short_circuit = false;
}

abbrev archive : Upload
archive = record {
  name = codes "Tests.ZIP";
  size = 400;
  sha256 = codes "abc";
  entries = some (
      entry (codes "t/10.in") (codes "i10")
      ∷ entry (codes "t/10.OUT") (codes "o10")
      ∷ entry (codes "t/2.ans") (codes "o2")
      ∷ entry (codes "t/2.in") (codes "i2")
      ∷ entry (codes "t/") (codes "")
      ∷ []);
}

abbrev no_packages : Depot
no_packages = record { next_id = 1; packages = []; test_cases = [] }

no_packages-IsDepot : IsDepot no_packages
no_packages-IsDepot = record {
  fresh = tt;
  unique_id = λ i. omega arith;
  one_active = λ k. omega arith;
  unique_version = λ k v. omega arith;
  unique_digest = λ k d. omega arith;
}

abbrev after : Result (Depot × PackageRow) → Depot × PackageRow
after (ok r) = r
after (err e) = (
  no_packages,
  record {
    id = 0;
    problem_id = 0;
    version = 0;
    sha256 = [];
    manifest = end;
    size_bytes = 0;
    is_active = false;
  },
)

abbrev stored : Depot × PackageRow
stored = after (import_zip python sums archive true no_packages)

imports : import_zip python sums archive true no_packages ≡ ok stored
unfolding import_zip
imports = refl

-- By number and not by name: 2 comes before 10.
in_order :
    map (λ r. r.test_case.files.input) stored.0.test_cases ≡ codes "t/2.in" ∷ codes "t/10.in" ∷ []
unfolding import_zip
in_order = refl

climbs_out :
    safe_file_names (codes "..\\x.in" ∷ []) ≡ err (validation_error "Invalid file path in archive:")
unfolding safe_file_names
climbs_out = refl

import_zip-IsDepot_example : IsDepot stored.0
import_zip-IsDepot_example =
    import_zip-IsDepot python sums archive true no_packages stored.0 stored.1 no_packages-IsDepot
      imports

import_zip-cases_example :
    (cases : List TestCase) × (stored.0.test_cases
      ≡ no_packages.test_cases ++ numbered stored.1.id 1 cases)
    × (length cases ≤ max_test_cases)
    × AreSafe cases
import_zip-cases_example =
    import_zip-cases python sums archive true no_packages stored.0 stored.1 imports
