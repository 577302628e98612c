-- ===== src/Packages/Cases.antt =====
-- The test cases of an archive, from its manifest or from its file names
-- (`_manifest_cases`, `_file_cases`, `_apply_default_points` of
-- apps/problems/services/package_service.py). Points are fixed-point, in millionths.
use judgeloom_core.Base.{
  ℕ, ◌*◌, ltb, Bool, not, ◌||◌, Option, none, some, if◌then◌else◌, List, [], ◌∷◌, map, length,
  Result, ok, err, ◌>>=◌, ◌>>◌, raise_if, String, validation_error,
}
use judgeloom_core.Base.Int.{pos, negsuc}
use judgeloom_core.Base.Text.{Text, codes, is_empty, is_in}
use judgeloom_core.Models.{round_half_even}
use judgeloom_core.Packages.Json.{
  Float, finite, nan, infinite, Json, null, text, arr, obj, Items, nil, cons, Fields, get, get_or,
  or_json, Python, str, float,
}
use judgeloom_core.Packages.Archive.{Entry, read_entry}

-- The columns of the problem that the import reads.
pub record ProblemInfo : Type 0 where
  pub id : ℕ
  pub code : Text
  pub points : ℕ
  pub time_limit : ℕ
  pub memory_limit : ℕ
  pub partial_score : Bool
  pub short_circuit : Bool

-- A test case, but for its points.
pub record CaseFiles : Type 0 where
  pub input : Text
  pub answer : Text
  pub group : Text
  pub input_sha256 : Text
  pub answer_sha256 : Text

pub record TestCase : Type 0 where
  pub files : CaseFiles
  pub points : ℕ

abbrev pub max_test_cases : ℕ
max_test_cases = 200

abbrev pub max_manifest_points : ℕ
max_manifest_points = 1000000 * 1000000

-- `not math.isfinite(points) or points < 0 or points > MAX_MANIFEST_POINTS`
abbrev pub in_range : Float → Option ℕ
in_range (finite (pos n)) = if ltb max_manifest_points n then none else some n
in_range (finite (negsuc n)) = none
in_range nan = none
in_range infinite = none

abbrev pub or_invalid {ℓ} : {A : Type ℓ} → String → Option A → Result A
or_invalid message none = err (validation_error message)
or_invalid message (some a) = ok a

-- `round(problem.points / len(cases), 2) if problem.points > 0 else 0.0`
unfoldable pub default_points : ProblemInfo → ℕ → ℕ
unfolding round_half_even
default_points p n = if ltb 0 p.points then round_half_even p.points (n * 10000) * 10000 else 0

abbrev pub with_points : ℕ → CaseFiles × Option ℕ → TestCase
with_points default (files, none) = record { files = files; points = default }
with_points default (files, some n) = record { files = files; points = n }

-- `_apply_default_points`
unfoldable pub apply_default_points : ProblemInfo → List (CaseFiles × Option ℕ) → List TestCase
unfolding default_points
apply_default_points p cases = map (with_points (default_points p (length cases))) cases

module _ (py : Python) where
  -- `None if points is None else float(points)`, in the range
  abbrev pub parse_points : Json → Result (Option ℕ)
  parse_points null = ok none
  parse_points v = do
    x ← or_invalid "Manifest case points must be numeric:" (float py v)
    n ← or_invalid "Manifest case points must be finite and within the allowed range." (in_range x)
    ok (some n)

  -- One case of the manifest
  unfoldable pub read_case : List Entry → List Text → Json → Result (CaseFiles × Option ℕ)
  read_case entries names (obj item) = do
    let input = str py (get_or (codes "input") (text []) item)
    let answer = str py (get_or (codes "answer") (get_or (codes "output") (text []) item) item)
    raise_if (is_empty input || is_empty answer)
        (validation_error "Manifest cases require input and answer paths.")
    raise_if (not (is_in input names) || not (is_in answer names))
        (validation_error "Manifest case references a missing file:")
    points ← parse_points (get_or (codes "points") null item)
    i ← read_entry input entries
    a ← read_entry answer entries
    ok (
      record {
        input = input;
        answer = answer;
        group = str py (or_json (get_or (codes "group") null item) (text (codes "default")));
        input_sha256 = i.sha256;
        answer_sha256 = a.sha256;
      },
      points,
    )
  read_case entries names _ = err (validation_error "Each manifest case must be an object.")

  unfoldable pub manifest_items :
      List Entry → List Text → Items → Result (List (CaseFiles × Option ℕ))
  unfolding read_case
  manifest_items entries names nil = ok []
  manifest_items entries names (cons v vs) = do
    c ← read_case entries names v
    cs ← manifest_items entries names vs
    ok (c ∷ cs)

  -- `manifest.get("cases")`, if it is a list that is not empty
  abbrev pub listed : Option Json → Option Items
  listed (some (arr (cons v vs))) = some (cons v vs)
  listed _ = none

  abbrev pub manifest_listed :
      List Entry → List Text → ProblemInfo → Option Items → Result (Option (List TestCase))
  unfolding manifest_items apply_default_points
  manifest_listed entries names p none = ok none
  manifest_listed entries names p (some items) =
      manifest_items entries names items >>= λ cs. ok (some (apply_default_points p cs))

  -- `_manifest_cases`
  unfoldable pub manifest_cases :
      List Entry → List Text → Fields → ProblemInfo → Result (Option (List TestCase))
  unfolding manifest_items apply_default_points
  manifest_cases entries names manifest p =
      manifest_listed entries names p (listed (get (codes "cases") manifest))
