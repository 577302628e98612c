-- ===== src/Packages/Json.antt =====
-- What `json.loads` returns, and what Python makes of such values. A finite number is fixed-point,
-- in millionths, and `json.loads` also reads NaN and infinities.
use judgeloom_core.Base.{◌==◌, Bool, true, false, not, Option, none, some, if◌then◌else◌}
use judgeloom_core.Base.Int.{ℤ, pos}
use judgeloom_core.Base.Text.{Text, text_eq, is_empty}

pub data Float : Type 0 where
  finite : ℤ → Float
  nan infinite : Float

mutual
  pub data Json : Type 0 where
    null : Json
    bool : Bool → Json
    num : Float → Json
    text : Text → Json
    arr : Items → Json
    obj : Fields → Json

  pub data Items : Type 0 where
    nil : Items
    cons : Json → Items → Items

  -- A dictionary, in the order of its keys.
  pub data Fields : Type 0 where
    end : Fields
    field : Text → Json → Fields → Fields

-- `d.get(key)`
abbrev pub get : Text → Fields → Option Json
get key end = none
get key (field k v fs) = if text_eq k key then some v else get key fs

abbrev pub value_or : Option Json → Json → Json
value_or none default = default
value_or (some v) default = v

-- `d.get(key, default)`
abbrev pub get_or : Text → Json → Fields → Json
get_or key default fs = value_or (get key fs) default

-- `d[key] = value`
abbrev pub put : Text → Json → Fields → Fields
put key v end = field key v end
put key v (field k w fs) = if text_eq k key then field k v fs else field k w (put key v fs)

-- `d.setdefault(key, value)`
abbrev pub set_default : Text → Json → Fields → Fields
set_default key v end = field key v end
set_default key v (field k w fs) =
    if text_eq k key then field k w fs else field k w (set_default key v fs)

abbrev pub is_zero : Float → Bool
is_zero (finite (pos n)) = n == 0
is_zero _ = false

-- `bool(value)`
abbrev pub is_true : Json → Bool
is_true null = false
is_true (bool b) = b
is_true (num x) = not (is_zero x)
is_true (text t) = not (is_empty t)
is_true (arr nil) = false
is_true (arr (cons v vs)) = true
is_true (obj end) = false
is_true (obj (field k v fs)) = true

-- `value or default`
abbrev pub or_json : Json → Json → Json
or_json v default = if is_true v then v else default

-- How Python prints a value that is no text, and the number that it reads in a text, if it reads
-- one.
pub record Python : Type 0 where
  pub shown : Json → Text
  pub read_float : Text → Option Float

-- `str(value)`
abbrev pub str : Python → Json → Text
str py (text t) = t
str py v = py.shown v

-- `float(value)`, where `none` is a `TypeError` or a `ValueError`
abbrev pub float : Python → Json → Option Float
float py (num x) = some x
float py (bool true) = some (finite (pos 1000000))
float py (bool false) = some (finite (pos 0))
float py (text t) = py.read_float t
float py _ = none
