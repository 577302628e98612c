-- ===== src/Content/Paths.antt =====
-- The materialized path of a new comment (apps/content/services/comment_service.py).
use judgeloom_core.Base.{
  ℕ, String, suc, ◌≡◌, ◌≢◌, ◌≤◌, ◌<◌, refl, sym, ap, ◌∙◌, subst, Option, none, some, List, [], ◌∷◌,
  ◌++◌, arith, ltb, max, length, length-append, All, All-weaken, ok, ◌>>◌, >>=-eq-ok, >>-eq-ok,
  ok-injective, raise_if, validation_error,
}
use judgeloom_core.Content.Comments.{
  Comment, Discussion, depth, max_depth, max_segment_value, last_segment, numeric, greatest_segment,
  next_segment, sibling_paths, check_parent, parent_path, created_at, create_comment,
}

-- A path whose last segment is at most `n`.
abbrev pub EndsBelow : ℕ → List ℕ → Type 0
EndsBelow n path = (k : ℕ) × (last_segment path ≡ some k) × (k ≤ n)

numeric-eq-ok : (o : Option ℕ) (n : ℕ) → numeric o ≡ ok n → o ≡ some n
numeric-eq-ok none n e = cc
numeric-eq-ok (some m) n e = cc

greatest_segment-bounds :
    (current : ℕ) (paths : List (List ℕ)) (n : ℕ)
    → greatest_segment current paths ≡ ok n
    → (current ≤ n) × All (EndsBelow n) paths
unfolding greatest_segment
greatest_segment-bounds current [] n e =
    let same : current ≡ n = ok-injective _ _ e in (omega arith, tt)
greatest_segment-bounds current (path ∷ paths) n e =
    let (k, number, rest) =
      >>=-eq-ok (numeric (last_segment path)) (λ k. greatest_segment (max current k) paths) e in
    let (above, others) = greatest_segment-bounds (max current k) paths n rest in
    (
      omega (arith, above),
      ((k, numeric-eq-ok (last_segment path) k number, omega (arith, above)), others),
    )

next_segment-bounds :
    (paths : List (List ℕ)) (n : ℕ)
    → next_segment paths ≡ ok n
    → (n ≤ max_segment_value) × All (λ path. (k : ℕ) × (last_segment path ≡ some k) × (k < n)) paths
unfolding next_segment
next_segment-bounds [] n e = let same : 1 ≡ n = ok-injective _ _ e in (omega arith, tt)
next_segment-bounds (path ∷ paths) n e =
    let (current, found, rest) =
      >>=-eq-ok (greatest_segment 0 (path ∷ paths))
        (λ current.
          raise_if (ltb max_segment_value (suc current))
            (validation_error "Too many sibling comments at this depth.")
          >> ok (suc current))
        e in
    let (small, done) =
      >>-eq-ok
        (raise_if (ltb max_segment_value (suc current))
          (validation_error "Too many sibling comments at this depth."))
        (ok (suc current)) rest in
    let same : suc current ≡ n = ok-injective _ _ done in
    (
      ground (arith, small, same),
      All-weaken (λ path (k, last, below). (k, last, omega (arith, same, below))) (path ∷ paths)
          (greatest_segment-bounds 0 (path ∷ paths) current found).1,
    )

last_segment-append : (xs : List ℕ) (n : ℕ) → last_segment (xs ++ (n ∷ [])) ≡ some n
last_segment-append [] n = refl
last_segment-append (x ∷ []) n = refl
last_segment-append (x ∷ y ∷ xs) n = last_segment-append (y ∷ xs) n

append-depth :
    (post : ℕ) (parent : Option Comment) (n : ℕ)
    → check_parent post parent ≡ ok tt
    → length (parent_path parent ++ (n ∷ [])) ≤ max_depth
append-depth post none n h = omega arith
append-depth post (some parent) n h = ground (arith, length-append parent.path (n ∷ []), h)

path-new :
    (n k : ℕ) (prefix path : List ℕ)
    → last_segment path ≡ some k
    → k < n
    → path ≢ prefix ++ (n ∷ [])
path-new n k prefix path last below same =
    let clash : some k ≡ some n = sym last ∙ ap last_segment same ∙ last_segment-append prefix n in
    ground (arith, clash)

-- A new comment stands one level below its parent, at most ten deep; its path ends in a segment of
-- at most three digits, and differs from those of all its siblings.
pub create_comment-path :
    (post author : ℕ) (body : String) (parent : Option Comment) (d new : Discussion) (c : Comment)
    → create_comment post author body parent d ≡ ok (new, c)
    → (n : ℕ) × (c.path ≡ parent_path parent ++ (n ∷ []))
      × (n ≤ max_segment_value)
      × (depth c ≤ max_depth)
      × All (λ path. path ≢ c.path) (sibling_paths post parent d)
unfolding create_comment
create_comment-path post author body parent d new c e =
    let (checked, rest) = >>-eq-ok (check_parent post parent) _ e in
    let (n, found, done) =
      >>=-eq-ok (next_segment (sibling_paths post parent d)) (created_at post author body parent d)
        rest in
    let path : parent_path parent ++ (n ∷ []) ≡ c.path =
      ap (λ r. r.1.path) (ok-injective _ _ done) in
    let (small, below) = next_segment-bounds (sibling_paths post parent d) n found in
    (
      n,
      sym path,
      small,
      subst (λ p. length p ≤ max_depth) path (append-depth post parent n checked),
      subst (λ p. All (λ path. path ≢ p) (sibling_paths post parent d)) path
          (All-weaken (λ path (k, last, less). path-new n k (parent_path parent) path last less)
            (sibling_paths post parent d) below),
    )
