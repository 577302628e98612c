-- ===== src/Packages/SafeNames.antt =====
-- The names that an archive may have, and the cases of a manifest that use them.
use judgeloom_core.Base.{
  ℕ, zero, suc, ◌≡◌, refl, not, ◌&&◌, ◌||◌, select, subst, arith, Bool, true, false, Bool-cases,
  inl, inr, Option, none, some, if◌then◌else◌, List, [], ◌∷◌, length, map, All, ok, >>=-eq-ok,
  >>-eq-ok, ok-injective, raise_if-eq-ok, raise_if, validation_error,
}
use judgeloom_core.Base.Text.{Text, codes, is_empty, text_eq, text_eq_sound, is_in}
use judgeloom_core.Packages.Json.{Json, obj, Items, nil, cons, Python}
use judgeloom_core.Packages.Paths.{
  split_from, is_absolute, is_unsafe, is_left_out, normalized, safe_file_names,
}
use judgeloom_core.Packages.Archive.{Entry}
use judgeloom_core.Packages.Cases.{
  ProblemInfo, CaseFiles, with_points, default_points, apply_default_points, read_case,
  manifest_items,
}

-- One part of a path, from a number of directories below the root: ".." leads out of the root.
abbrev above : ℕ → Option ℕ
above zero = none
above (suc d) = some d

abbrev move : Text → Option ℕ → Option ℕ
move p none = none
move p (some d) =
    if is_empty p || text_eq p (codes ".")
    then some d
    else (if text_eq p (codes "..") then above d else some (suc d))

-- How far below the root the parts lead, if they never leave it.
abbrev resolve : Option ℕ → List Text → Option ℕ
resolve d [] = d
resolve d (p ∷ ps) = resolve (move p d) ps

-- The name is relative, and no part of it leads out of the directory that it is unpacked to.
abbrev pub IsSafeName : Text → Type 0
IsSafeName n = (is_absolute n ≡ false) × ((d : ℕ) × (resolve (some 0) (split_from [] n) ≡ some d))

stays_below :
    (ps : List Text) (d : ℕ)
    → is_in (codes "..") (select (λ p. not (is_empty p) && not (text_eq p (codes "."))) ps) ≡ false
    → (e : ℕ) × (resolve (some d) ps ≡ some e)
stays_below [] d h = (d, refl)
stays_below (p ∷ ps) d h = elim (Bool-cases (is_empty p || text_eq p (codes "."))) [
  | inl t ↦
      let here : move p (some d) ≡ some d = rw t refl in
      let (e, is) = stays_below ps d (ground arith) in (e, rw here is)
  | inr f ↦
      let here : move p (some d) ≡ some (suc d) = ground arith in
      let (e, is) = stays_below ps (suc d) (ground arith) in (e, rw here is)
]

is_unsafe-IsSafeName : (n : Text) → is_unsafe n ≡ false → IsSafeName n
unfolding is_unsafe
is_unsafe-IsSafeName n h = (ground arith, stays_below (split_from [] n) 0 (ground arith))

pub safe_file_names-IsSafe :
    (names out : List Text) → safe_file_names names ≡ ok out → All IsSafeName out
unfolding safe_file_names
safe_file_names-IsSafe [] out e = subst (All IsSafeName) (ok-injective _ _ e) tt
safe_file_names-IsSafe (name ∷ names) out e =
    let (safe, later) =
      >>-eq-ok
        (raise_if (is_unsafe (normalized name)) (validation_error "Invalid file path in archive:"))
        _ e in
    let (rest, ok_rest, done) = >>=-eq-ok (safe_file_names names) _ later in
    subst (All IsSafeName) (ok-injective _ _ done) (
      kept (normalized name) rest (is_left_out name)
        (is_unsafe-IsSafeName (normalized name) (raise_if-eq-ok _ _ safe))
        (safe_file_names-IsSafe names rest ok_rest))
  where
    kept :
        (n : Text) (rest : List Text) (skipped : Bool)
        → IsSafeName n
        → All IsSafeName rest
        → All IsSafeName (if skipped then rest else n ∷ rest)
    kept n rest true safe h = h
    kept n rest false safe h = (safe, h)

-- Both files of a case are safe names.
abbrev pub IsSafeFiles : CaseFiles → Type 0
IsSafeFiles c = IsSafeName c.input × IsSafeName c.answer

is_in-safe :
    (n : Text) (names : List Text) → is_in n names ≡ true → All IsSafeName names → IsSafeName n
is_in-safe n [] t h = cc
is_in-safe n (m ∷ names) t h = elim (Bool-cases (text_eq m n)) [
  | inl same ↦ subst IsSafeName (text_eq_sound m n same) h.0
  | inr other ↦ is_in-safe n names (ground arith) h.1
]

pub apply_default_points-safe :
    (p : ProblemInfo) (cs : List (CaseFiles × Option ℕ))
    → All (λ c. IsSafeFiles c.0) cs
    → All (λ c. IsSafeFiles c.files) (apply_default_points p cs)
unfolding apply_default_points
apply_default_points-safe p cs h = each (default_points p (length cs)) cs h
  where
    each :
        (d : ℕ) (cs : List (CaseFiles × Option ℕ))
        → All (λ c. IsSafeFiles c.0) cs
        → All (λ c. IsSafeFiles c.files) (map (with_points d) cs)
    each d [] h = tt
    each d ((files, none) ∷ cs) h = (h.0, each d cs h.1)
    each d ((files, some n) ∷ cs) h = (h.0, each d cs h.1)

read_case-safe :
    (py : Python) (entries : List Entry) (names : List Text) (v : Json) (c : CaseFiles × Option ℕ)
    → read_case py entries names v ≡ ok c
    → (is_in c.0.input names ≡ true) × (is_in c.0.answer names ≡ true)
unfolding read_case
read_case-safe py entries names (obj item) c e = ground arith
read_case-safe py entries names _ c e = cc

pub manifest_items-safe :
    (py : Python) (entries : List Entry) (names : List Text) (items : Items)
    (cs : List (CaseFiles × Option ℕ))
    → All IsSafeName names
    → manifest_items py entries names items ≡ ok cs
    → All (λ c. IsSafeFiles c.0) cs
unfolding manifest_items
manifest_items-safe py entries names nil cs h e =
    subst (All (λ (c : CaseFiles × Option ℕ). IsSafeFiles c.0)) (ok-injective _ _ e) tt
manifest_items-safe py entries names (cons v vs) cs h e =
    let (c, one, later) = >>=-eq-ok (read_case py entries names v) _ e in
    let (rest, others, done) =
      >>=-eq-ok (manifest_items py entries names vs) (λ rest. ok (c ∷ rest)) later in
    let (i, a) = read_case-safe py entries names v c one in
    subst (All (λ (c : CaseFiles × Option ℕ). IsSafeFiles c.0)) (ok-injective _ _ done) (
      (is_in-safe c.0.input names i h, is_in-safe c.0.answer names a h),
      manifest_items-safe py entries names vs rest h others,
    )
