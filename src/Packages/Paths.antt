-- ===== src/Packages/Paths.antt =====
-- The file names of an archive: `PurePosixPath` as far as the import uses it, and
-- `PackageImportService._safe_file_names` (apps/problems/services/package_service.py).
use judgeloom_core.Base.{
  ℕ, ◌==◌, Bool, false, not, ◌&&◌, ◌||◌, Option, none, some, if◌then◌else◌, List, [], ◌∷◌, ◌++◌,
  select, Result, ok, ◌>>=◌, ◌>>◌, raise_if, validation_error,
}
use judgeloom_core.Base.Text.{
  Text, codes, text_eq, is_empty, is_in, starts_with, ends_with, replace,
}

-- The parts between the slashes, from the part read so far.
abbrev pub split_from : Text → Text → List Text
split_from part [] = part ∷ []
split_from part (c ∷ s) =
    let closed = part ∷ split_from [] s in
    let longer = split_from (part ++ c ∷ []) s in if c == b'/' then closed else longer

-- `PurePosixPath(name).parts` without the root: no empty part and no ".".
abbrev pub parts : Text → List Text
parts name = select (λ p. not (is_empty p) && not (text_eq p (codes "."))) (split_from [] name)

-- `is_absolute()`
abbrev pub is_absolute : Text → Bool
is_absolute name = starts_with name (codes "/")

-- `path.parts and path.parts[0].endswith(":")`
abbrev pub has_drive : List Text → Bool
unfolding ends_with
has_drive [] = false
has_drive (p ∷ ps) = ends_with p (codes ":")

-- A path that leads out of the directory it is unpacked to.
unfoldable pub is_unsafe : Text → Bool
unfolding ends_with
is_unsafe name = is_absolute name || is_in (codes "..") (parts name) || has_drive (parts name)

abbrev pub normalized : Text → Text
normalized name = replace 92 b'/' name

-- `name.endswith("/") or name.startswith("__MACOSX")`
unfoldable pub is_left_out : Text → Bool
unfolding ends_with
is_left_out name = ends_with name (codes "/") || starts_with name (codes "__MACOSX")

-- `_safe_file_names`
unfoldable pub safe_file_names : List Text → Result (List Text)
unfolding is_unsafe is_left_out
safe_file_names [] = ok []
safe_file_names (name ∷ names) = do
  raise_if (is_unsafe (normalized name)) (validation_error "Invalid file path in archive:")
  rest ← safe_file_names names
  ok (if is_left_out name then rest else normalized name ∷ rest)

-- The last part of a path, its name.
abbrev pub last_part : List Text → Text
last_part [] = []
last_part (p ∷ []) = p
last_part (p ∷ q ∷ ps) = last_part (q ∷ ps)

-- A character before what the rest was split to.
abbrev pub extend : ℕ → Text → Option (Text × Text) → Option (Text × Text)
extend c s none = if c == b'.' then some ([], s) else none
extend c s (some (stem, ending)) = some (c ∷ stem, ending)

-- What stands before and behind the last dot.
abbrev pub at_last_dot : Text → Option (Text × Text)
at_last_dot [] = none
at_last_dot (c ∷ s) = extend c s (at_last_dot s)

-- `stem` and `suffix` of a name
abbrev pub name_parts : Text → Option (Text × Text) → Text × Text
name_parts name none = (name, [])
name_parts name (some (stem, ending)) =
    if is_empty stem || is_empty ending then (name, []) else (stem, b'.' ∷ ending)

unfoldable pub stem_suffix : Text → Text × Text
stem_suffix path = let name = last_part (parts path) in name_parts name (at_last_dot name)
