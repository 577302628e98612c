-- ===== src/Packages/Archive.antt =====
-- An uploaded archive, its manifest, and the checks on the manifest's checker and validator
-- (apps/problems/services/package_service.py). An entry has what the libraries make of its bytes:
-- their SHA-256, and the value that `json.loads` reads in them, where it reads one.
use judgeloom_core.Base.{
  ℕ, ◌*◌, ltb, leb, Bool, not, ◌&&◌, Option, none, some, if◌then◌else◌, List, [], ◌∷◌, any, String,
  Result, ok, err, ◌>>=◌, ◌>>◌, raise_if, validation_error, key_error, value_error,
}
use judgeloom_core.Base.Text.{Text, codes, text_eq, is_empty, is_in, strip, lower, utf8_length}
use judgeloom_core.Packages.Json.{
  Json, null, bool, num, text, arr, obj, Fields, end, get, get_or, Python, str,
}

pub record Entry : Type 0 where
  pub filename : Text
  pub file_size : ℕ
  pub sha256 : Text
  pub json : Option Json

-- The file that was uploaded; `entries` is what `ZipFile` lists, if it is a ZIP archive.
pub record Upload : Type 0 where
  pub name : Text
  pub size : ℕ
  pub sha256 : Text
  pub entries : Option (List Entry)

abbrev pub or_entry : Option Entry → Bool → Entry → Option Entry
or_entry (some later) same e = some later
or_entry none same e = if same then some e else none

-- `zf.read(name)`: the last entry of that name.
abbrev pub read : Text → List Entry → Option Entry
read name [] = none
read name (e ∷ es) = or_entry (read name es) (text_eq e.filename name) e

abbrev pub or_key_error : Option Entry → Result Entry
or_key_error none = err (key_error "There is no item named in the archive")
or_key_error (some e) = ok e

abbrev pub read_entry : Text → List Entry → Result Entry
read_entry name es = or_key_error (read name es)

abbrev pub as_manifest : Option Json → Result Fields
as_manifest none = err (validation_error "Invalid manifest.json.")
as_manifest (some (obj fs)) = ok fs
as_manifest (some null) = err (validation_error "manifest.json must be an object.")
as_manifest (some (bool b)) = err (validation_error "manifest.json must be an object.")
as_manifest (some (num x)) = err (validation_error "manifest.json must be an object.")
as_manifest (some (text t)) = err (validation_error "manifest.json must be an object.")
as_manifest (some (arr vs)) = err (validation_error "manifest.json must be an object.")

-- `_read_manifest`
unfoldable pub read_manifest : List Entry → List Text → Result Fields
read_manifest entries file_names =
    if not (is_in (codes "manifest.json") file_names)
    then ok end
    else read_entry (codes "manifest.json") entries >>= λ e. as_manifest e.json

abbrev pub max_validator_source_bytes : ℕ
max_validator_source_bytes = 256 * 1024

-- A lone surrogate cannot be encoded.
abbrev pub has_surrogate : Text → Bool
has_surrogate s = any (λ c. leb 55296 c && leb c 57343) s

-- The source of a checker or a validator, with the two messages.
abbrev pub check_source : String → String → Option Json → Result (Unit {0})
check_source missing large (some (text source)) =
    raise_if (is_empty (strip source)) (validation_error missing)
    >> (raise_if (has_surrogate source) (value_error "surrogates not allowed")
        >> raise_if (ltb max_validator_source_bytes (utf8_length source)) (validation_error large))
check_source missing large none = err (validation_error missing)
check_source missing large (some null) = err (validation_error missing)
check_source missing large (some (bool b)) = err (validation_error missing)
check_source missing large (some (num x)) = err (validation_error missing)
check_source missing large (some (arr vs)) = err (validation_error missing)
check_source missing large (some (obj fs)) = err (validation_error missing)

abbrev pub checker_kinds : List Text
checker_kinds = codes "exact" ∷ codes "testlib" ∷ codes "interactive" ∷ codes "none" ∷ []

abbrev pub sourced_kinds : List Text
sourced_kinds = codes "testlib" ∷ codes "interactive" ∷ []

abbrev pub validator_kinds : List Text
validator_kinds = codes "none" ∷ codes "testlib" ∷ []

module _ (py : Python) where
  abbrev pub check_checker : Json → Result (Unit {0})
  unfolding strip
  check_checker null = ok tt
  check_checker (obj checker) =
      let kind = lower (str py (get_or (codes "type") (text (codes "exact")) checker)) in
      raise_if (not (is_in kind checker_kinds))
        (validation_error "Unsupported manifest checker type:")
      >> (if is_in kind sourced_kinds
          then check_source "A checker requires inline source."
              "Checker source exceeds the maximum allowed size." (get (codes "source") checker)
          else ok tt)
  check_checker (bool b) = err (validation_error "manifest checker must be an object.")
  check_checker (num x) = err (validation_error "manifest checker must be an object.")
  check_checker (text t) = err (validation_error "manifest checker must be an object.")
  check_checker (arr vs) = err (validation_error "manifest checker must be an object.")

  -- `_validate_checker`
  unfoldable pub validate_checker : Fields → Result (Unit {0})
  unfolding strip
  validate_checker manifest = check_checker (get_or (codes "checker") null manifest)

  abbrev pub check_validator : Json → Result (Unit {0})
  unfolding strip
  check_validator null = ok tt
  check_validator (obj validator) =
      let kind = lower (str py (get_or (codes "type") (text (codes "none")) validator)) in
      raise_if (not (is_in kind validator_kinds))
        (validation_error "Unsupported manifest validator type:")
      >> (if text_eq kind (codes "testlib")
          then check_source "A Testlib validator requires inline source."
              "Validator source exceeds the maximum allowed size." (get (codes "source") validator)
          else ok tt)
  check_validator (bool b) = err (validation_error "manifest validator must be an object.")
  check_validator (num x) = err (validation_error "manifest validator must be an object.")
  check_validator (text t) = err (validation_error "manifest validator must be an object.")
  check_validator (arr vs) = err (validation_error "manifest validator must be an object.")

  -- `_validate_validator`
  unfoldable pub validate_validator : Fields → Result (Unit {0})
  unfolding strip
  validate_validator manifest = check_validator (get_or (codes "validator") null manifest)
