-- ===== src/Packages/Safety.antt =====
-- No test case of an imported package names a file outside the archive's directory.
use judgeloom_core.Base.{
  ℕ, ◌≡◌, subst, arith, ◌||◌, inl, inr, Option, none, some, List, [], ◌∷◌, ◌++◌, All, All-append,
  Result, ok, >>=-eq-ok, ok-injective, if-eq-ok, select,
}
use judgeloom_core.Base.Text.{Text, codes, text_eq, lower}
use judgeloom_core.Packages.Paths.{stem_suffix}
use judgeloom_core.Packages.Archive.{Entry, read_entry}
use judgeloom_core.Packages.Cases.{CaseFiles}
use judgeloom_core.Packages.Files.{
  Pair, no_files, add_input, add_output, change_pair, add_file, add_files, ValidCase, valid_case,
  valid_cases, is_digit, read_number, read_cases,
}
use judgeloom_core.Packages.SafeNames.{IsSafeName, IsSafeFiles}

abbrev pub IsSafeOption : Option Text → Type 0
IsSafeOption none = Unit
IsSafeOption (some n) = IsSafeName n

abbrev pub IsSafePair : Text × Pair → Type 0
IsSafePair (stem, p) = IsSafeOption p.input × IsSafeOption p.output

-- What a change to a pair keeps safe.
abbrev KeepsSafe : (Pair → Result Pair) → Type 0
KeepsSafe change =
    (stem : Text) (p q : Pair) → IsSafePair (stem, p) → change p ≡ ok q → IsSafePair (stem, q)

added_input :
    (file : Text) (p q : Pair) → add_input file p ≡ ok q → record p { input = some file } ≡ q
added_input file p q e = ground arith

added_output :
    (file : Text) (p q : Pair) → add_output file p ≡ ok q → record p { output = some file } ≡ q
added_output file p q e = ground arith

add_input-KeepsSafe : (file : Text) → IsSafeName file → KeepsSafe (add_input file)
add_input-KeepsSafe file safe stem p q h e =
    subst (λ q. IsSafePair (stem, q)) (added_input file p q e) (safe, h.1)

add_output-KeepsSafe : (file : Text) → IsSafeName file → KeepsSafe (add_output file)
add_output-KeepsSafe file safe stem p q h e =
    subst (λ q. IsSafePair (stem, q)) (added_output file p q e) (h.0, safe)

change_pair-safe :
    (stem : Text) (change : Pair → Result Pair) (ps qs : List (Text × Pair))
    → KeepsSafe change
    → All IsSafePair ps
    → change_pair stem change ps ≡ ok qs
    → All IsSafePair qs
unfolding change_pair
change_pair-safe stem change [] qs keeps h e =
    let (q, one, done) = >>=-eq-ok (change no_files) (λ p. ok ((stem, p) ∷ [])) e in
    subst (All IsSafePair) (ok-injective _ _ done) (keeps stem no_files q (tt, tt) one, tt)
change_pair-safe stem change ((k, p) ∷ ps) qs keeps h e = elim (if-eq-ok (text_eq k stem) _ _ e) [
  | inl (_, here) ↦
      let (q, one, done) = >>=-eq-ok (change p) (λ q. ok ((k, q) ∷ ps)) here in
      subst (All IsSafePair) (ok-injective _ _ done) (keeps k p q h.0 one, h.1)
  | inr (_, later) ↦
      let (rest, others, done) =
        >>=-eq-ok (change_pair stem change ps) (λ qs. ok ((k, p) ∷ qs)) later in
      subst (All IsSafePair) (ok-injective _ _ done)
        (h.0, change_pair-safe stem change ps rest keeps h.1 others)
]

add_file-safe :
    (ps qs : List (Text × Pair)) (file : Text)
    → IsSafeName file
    → All IsSafePair ps
    → add_file ps file ≡ ok qs
    → All IsSafePair qs
unfolding add_file
add_file-safe ps qs file safe h e =
    let stem = (stem_suffix file).0 in
    let extension = lower (stem_suffix file).1 in
    elim (if-eq-ok (text_eq extension (codes ".in")) _ _ e) [
      | inl (_, i) ↦
          change_pair-safe stem (add_input file) ps qs (add_input-KeepsSafe file safe) h i
      | inr (_, other) ↦
          elim (if-eq-ok (text_eq extension (codes ".out") || text_eq extension (codes ".ans")) _ _
            other) [
              | inl (_, o) ↦
                  change_pair-safe stem (add_output file) ps qs (add_output-KeepsSafe file safe) h o
              | inr (_, none_of_them) ↦ subst (All IsSafePair) (ok-injective _ _ none_of_them) h
            ]
    ]

pub add_files-safe :
    (ps qs : List (Text × Pair)) (files : List Text)
    → All IsSafeName files
    → All IsSafePair ps
    → add_files ps files ≡ ok qs
    → All IsSafePair qs
unfolding add_files
add_files-safe ps qs [] safe h e = subst (All IsSafePair) (ok-injective _ _ e) h
add_files-safe ps qs (f ∷ fs) safe h e =
    let (mid, one, rest) = >>=-eq-ok (add_file ps f) (λ ps. add_files ps fs) e in
    add_files-safe mid qs fs safe.1 (add_file-safe ps mid f safe.0 h one) rest

abbrev pub IsSafeCase : ValidCase → Type 0
IsSafeCase c = IsSafeName c.input × IsSafeName c.answer

valid_case-safe :
    (stem : Text) (i o : Option Text) (cs : List ValidCase)
    → IsSafeOption i
    → IsSafeOption o
    → valid_case stem i o ≡ ok cs
    → All IsSafeCase cs
valid_case-safe stem none o cs hi ho e = subst (All IsSafeCase) (ok-injective _ _ e) tt
valid_case-safe stem (some i) none cs hi ho e = subst (All IsSafeCase) (ok-injective _ _ e) tt
valid_case-safe stem (some i) (some o) cs hi ho e =
    let (n, _, done) =
      >>=-eq-ok (read_number (select is_digit stem))
        (λ n. ok (record { number = n; stem = stem; input = i; answer = o } ∷ [])) e in
    subst (All IsSafeCase) (ok-injective _ _ done) ((hi, ho), tt)

pub valid_cases-safe :
    (ps : List (Text × Pair)) (cs : List ValidCase)
    → All IsSafePair ps
    → valid_cases ps ≡ ok cs
    → All IsSafeCase cs
unfolding valid_cases
valid_cases-safe [] cs h e = subst (All IsSafeCase) (ok-injective _ _ e) tt
valid_cases-safe ((stem, p) ∷ ps) cs h e =
    let (here, one, later) = >>=-eq-ok (valid_case stem p.input p.output) _ e in
    let (rest, others, done) = >>=-eq-ok (valid_cases ps) (λ rest. ok (here ++ rest)) later in
    subst (All IsSafeCase) (ok-injective _ _ done) (
      All-append IsSafeCase here rest (valid_case-safe stem p.input p.output here h.0.0 h.0.1 one)
        (valid_cases-safe ps rest h.1 others))

abbrev pub IsSafeRow : CaseFiles × Option ℕ → Type 0
IsSafeRow c = IsSafeFiles c.0

pub read_cases-safe :
    (entries : List Entry) (cs : List ValidCase) (out : List (CaseFiles × Option ℕ))
    → All IsSafeCase cs
    → read_cases entries cs ≡ ok out
    → All IsSafeRow out
unfolding read_cases
read_cases-safe entries [] out h e = subst (All IsSafeRow) (ok-injective _ _ e) tt
read_cases-safe entries (c ∷ cs) out h e =
    let (i, _, with_i) = >>=-eq-ok (read_entry c.input entries) _ e in
    let (a, _, with_a) = >>=-eq-ok (read_entry c.answer entries) _ with_i in
    let (rest, others, done) = >>=-eq-ok (read_cases entries cs) _ with_a in
    subst (All IsSafeRow) (ok-injective _ _ done) (h.0, read_cases-safe entries cs rest h.1 others)
