-- ===== src/Packages/Files.antt =====
-- The test cases of an archive without a list of cases: its files are paired by their stems
-- (`_file_cases` of apps/problems/services/package_service.py).
use judgeloom_core.Base.{
  ℕ, ◌+◌, ◌-◌, ◌*◌, ltb, leb, ◌==◌, Bool, true, false, not, ◌&&◌, ◌||◌, is_some, Option, none, some,
  if◌then◌else◌, List, [], ◌∷◌, ◌++◌, any, length, select, foldl, Result, ok, err, ◌>>=◌, ◌>>◌,
  raise_if, validation_error, value_error,
}
use judgeloom_core.Base.Sort.{sort_by}
use judgeloom_core.Base.Text.{Text, codes, text_eq, lower, text_leb}
use judgeloom_core.Packages.Paths.{stem_suffix}
use judgeloom_core.Packages.Archive.{Entry, read_entry}
use judgeloom_core.Packages.Cases.{
  ProblemInfo, CaseFiles, TestCase, max_test_cases, apply_default_points,
}

-- The files of one stem, `pairs[stem]`.
pub record Pair : Type 0 where
  pub input : Option Text
  pub output : Option Text

abbrev pub no_files : Pair
no_files = record { input = none; output = none }

abbrev pub duplicate {ℓ} : {A : Type ℓ} → Result A
duplicate = err (validation_error "Duplicate testcase stem detected:")

abbrev pub add_input : Text → Pair → Result Pair
add_input file p = if is_some p.input then duplicate else ok (record p { input = some file })

abbrev pub add_output : Text → Pair → Result Pair
add_output file p = if is_some p.output then duplicate else ok (record p { output = some file })

-- The pair of a stem changed, or a new one behind the others.
unfoldable pub change_pair :
    Text → (Pair → Result Pair) → List (Text × Pair) → Result (List (Text × Pair))
change_pair stem change [] = change no_files >>= λ p. ok ((stem, p) ∷ [])
change_pair stem change ((k, p) ∷ ps) =
    let here = change p >>= λ q. ok ((k, q) ∷ ps) in
    let later = change_pair stem change ps >>= λ qs. ok ((k, p) ∷ qs) in
    if text_eq k stem then here else later

unfoldable pub add_file : List (Text × Pair) → Text → Result (List (Text × Pair))
unfolding change_pair stem_suffix
add_file pairs file =
    let (stem, suffix) = stem_suffix file in
    let extension = lower suffix in
    if text_eq extension (codes ".in")
    then change_pair stem (add_input file) pairs
    else (if text_eq extension (codes ".out") || text_eq extension (codes ".ans")
        then change_pair stem (add_output file) pairs
        else ok pairs)

unfoldable pub add_files : List (Text × Pair) → List Text → Result (List (Text × Pair))
unfolding add_file
add_files pairs [] = ok pairs
add_files pairs (f ∷ fs) = add_file pairs f >>= λ ps. add_files ps fs

-- A stem with both files, and the number in it.
pub record ValidCase : Type 0 where
  pub number : ℕ
  pub stem : Text
  pub input : Text
  pub answer : Text

-- `str.isdigit`, for the characters of Latin-1: the superscripts count too, but `int` reads none.
abbrev pub is_decimal : ℕ → Bool
is_decimal c = leb b'0' c && leb c b'9'

abbrev pub is_digit : ℕ → Bool
is_digit c = is_decimal c || c == 178 || c == 179 || c == 185

-- `int(digits) if digits else 0`. Python reads at most 4300 digits.
abbrev pub read_number : Text → Result ℕ
read_number digits =
    raise_if (any (λ c. not (is_decimal c)) digits || ltb 4300 (length digits))
      (value_error "invalid literal for int() with base 10")
    >> ok (foldl (λ n c. n * 10 + (c - b'0')) 0 digits)

abbrev pub valid_case : Text → Option Text → Option Text → Result (List ValidCase)
valid_case stem (some i) (some a) = read_number (select is_digit stem) >>= λ n.
    ok (record { number = n; stem = stem; input = i; answer = a } ∷ [])
valid_case stem _ _ = ok []

unfoldable pub valid_cases : List (Text × Pair) → Result (List ValidCase)
valid_cases [] = ok []
valid_cases ((stem, p) ∷ ps) = do
  here ← valid_case stem p.input p.output
  rest ← valid_cases ps
  ok (here ++ rest)

-- The key `(number, stem)`
abbrev pub case_order : ValidCase → ValidCase → Bool
case_order a b =
    if ltb a.number b.number
    then true
    else (if ltb b.number a.number then false else text_leb a.stem b.stem)

unfoldable pub read_cases : List Entry → List ValidCase → Result (List (CaseFiles × Option ℕ))
read_cases entries [] = ok []
read_cases entries (c ∷ cs) = do
  i ← read_entry c.input entries
  a ← read_entry c.answer entries
  rest ← read_cases entries cs
  ok (
      (
        record {
          input = c.input;
          answer = c.answer;
          group = codes "default";
          input_sha256 = i.sha256;
          answer_sha256 = a.sha256;
        },
        none,
      )
      ∷ rest)

-- `_file_cases`
unfoldable pub file_cases : List Entry → List Text → ProblemInfo → Result (List TestCase)
unfolding add_files valid_cases read_cases sort_by apply_default_points
file_cases entries names p = do
  pairs ← add_files [] names
  valid ← valid_cases pairs
  raise_if (length valid == 0)
      (validation_error "Archive must contain matching .in and .out/.ans files.")
  raise_if (ltb max_test_cases (length valid))
      (validation_error "Archive exceeds maximum allowed test cases.")
  cases ← read_cases entries (sort_by case_order valid)
  ok (apply_default_points p cases)
