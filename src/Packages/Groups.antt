-- ===== src/Packages/Groups.antt =====
-- The groups of a manifest, and the manifest that is stored (`_validate_groups` and
-- `_build_manifest` of apps/problems/services/package_service.py).
use judgeloom_core.Base.{
  ℕ, zero, suc, ◌+◌, ◌/◌, ◌%◌, ◌==◌, Bool, false, not, if◌then◌else◌, List, [], ◌∷◌, ◌++◌, any, map,
  Result, ok, err, ◌>>=◌, ◌>>◌, raise_if, validation_error,
}
use judgeloom_core.Base.Int.{pos}
use judgeloom_core.Base.Text.{Text, codes, text_eq, is_empty, is_in, strip}
use judgeloom_core.Models.{whole, round2}
use judgeloom_core.Packages.Json.{
  finite, Json, null, bool, num, text, arr, obj, Items, nil, cons, Fields, end, field, get_or, put,
  set_default, is_true, or_json, Python, str, float,
}
use judgeloom_core.Packages.Cases.{ProblemInfo, TestCase, in_range, or_invalid}

pub record GroupDef : Type 0 where
  pub id : Text
  pub mode : Text
  pub points : ℕ

-- `manifest.get("groups")`, where no value is no group
abbrev pub raw_groups : Json → Result Items
raw_groups null = ok nil
raw_groups (arr vs) = ok vs
raw_groups _ = err (validation_error "manifest groups must be a list.")

abbrev pub modes : List Text
modes = codes "sum" ∷ codes "min" ∷ []

abbrev pub zero_json : Json
zero_json = num (finite (pos 0))

abbrev pub all_default : List TestCase → Bool
all_default [] = false
all_default (c ∷ cs) = not (any (λ c. not (text_eq c.files.group (codes "default"))) (c ∷ cs))

-- The check of the groups that the cases name
unfoldable pub check_case_groups : List GroupDef → List TestCase → Result (Unit {0})
check_case_groups [] cases =
    raise_if (not (all_default cases))
      (validation_error "Manifest cases use custom groups but no group definitions were provided.")
check_case_groups (d ∷ ds) cases =
    raise_if (any (λ c. not (is_in c.files.group (map (λ g. g.id) (d ∷ ds)))) cases)
      (validation_error "Manifest cases reference unknown groups:")

module _ (py : Python) where
  -- One group, after the groups before it
  unfoldable pub group_def : List GroupDef → Json → Result GroupDef
  unfolding strip
  group_def before (obj item) = do
    let id = strip (str py (get_or (codes "id") (text []) item))
    raise_if (is_empty id) (validation_error "Manifest group id is required.")
    raise_if (is_in id (map (λ g. g.id) before)) (validation_error "Duplicate manifest group id:")
    let mode = str py (get_or (codes "mode") (text (codes "sum")) item)
    raise_if (not (is_in mode modes)) (validation_error "Unsupported manifest group mode:")
    x ←
        or_invalid "Manifest group points must be numeric:"
          (float py (or_json (get_or (codes "points") zero_json item) zero_json))
    n ← or_invalid "Manifest group points must be finite and within range:" (in_range x)
    ok (record { id = id; mode = mode; points = n })
  group_def before _ = err (validation_error "Each manifest group must be an object.")

  unfoldable pub group_defs : List GroupDef → Items → Result (List GroupDef)
  unfolding group_def
  group_defs before nil = ok before
  group_defs before (cons v vs) = group_def before v >>= λ g. group_defs (before ++ g ∷ []) vs

  -- `_validate_groups`
  unfoldable pub validate_groups : Fields → List TestCase → Result (List GroupDef)
  unfolding group_defs check_case_groups
  validate_groups manifest cases = do
    items ← raw_groups (get_or (codes "groups") null manifest)
    defs ← group_defs [] items
    check_case_groups defs cases
    ok defs

-- `str(index)`: the digits of a number, with a round of fuel for each.
abbrev pub digits_of : ℕ → ℕ → Text → Text
digits_of zero n later = later
digits_of (suc fuel) n later =
    let rest = digits_of fuel (n / 10) ((b'0' + n % 10) ∷ later) in if n == 0 then later else rest

unfoldable pub decimal : ℕ → Text
decimal n = if n == 0 then codes "0" else digits_of n n []

abbrev pub number : ℕ → Json
number n = num (finite (pos n))

unfoldable pub stored_case : ℕ → TestCase → Json
unfolding decimal
stored_case index c = obj (
    field (codes "id") (text (decimal index)) (
      field (codes "input") (text c.files.input) (
        field (codes "answer") (text c.files.answer) (
          field (codes "input_sha256") (text c.files.input_sha256) (
            field (codes "answer_sha256") (text c.files.answer_sha256) (
              field (codes "points") (number c.points)
                (field (codes "group") (text c.files.group) end)))))))

unfoldable pub stored_cases : ℕ → List TestCase → Items
unfolding stored_case
stored_cases index [] = nil
stored_cases index (c ∷ cs) = cons (stored_case index c) (stored_cases (suc index) cs)

abbrev pub total_points : List TestCase → ℕ
total_points [] = 0
total_points (c ∷ cs) = c.points + total_points cs

abbrev pub default_groups : List TestCase → Json
unfolding round2
default_groups cases = arr (
    cons
      (obj (
        field (codes "id") (text (codes "default")) (
          field (codes "points") (number (round2 (total_points cases)))
            (field (codes "mode") (text (codes "sum")) end))))
      nil)

abbrev pub with_groups : List TestCase → Fields → Fields
unfolding round2
with_groups cases result =
    if not (is_true (get_or (codes "groups") null result))
    then put (codes "groups") (default_groups cases) result
    else result

-- `_build_manifest`
unfoldable pub build_manifest : ProblemInfo → Fields → List TestCase → Fields
unfolding stored_cases round2
build_manifest p manifest cases =
    let a = set_default (codes "schema") (number (whole 1)) manifest in
    let b = set_default (codes "problem_code") (text p.code) a in
    let c = set_default (codes "time_limit") (number p.time_limit) b in
    let d = set_default (codes "memory_limit") (number (whole p.memory_limit)) c in
    let e =
      set_default (codes "checker") (obj (field (codes "type") (text (codes "exact")) end)) d in
    let f = set_default (codes "partial_score") (bool p.partial_score) e in
    let g = set_default (codes "short_circuit") (bool p.short_circuit) f in
    with_groups cases (put (codes "cases") (arr (stored_cases 1 cases)) g)
