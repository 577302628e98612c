-- ===== src/Accounts/Tokens.antt =====
-- The access tokens: `AuthService.generate_jwt_token` and `refresh_jwt_token`
-- (apps/accounts/services/auth_service.py), and `JudgeLoomAuth` (core/permissions.py).
use judgeloom_core.Base.{
  ℕ, ◌+◌, ◌*◌, ◌/◌, ◌==◌, ltb, Bool, true, false, not, ◌&&◌, ◌||◌, Option, none, some,
  if◌then◌else◌, Result, ok, err, ◌>>=◌, ◌>>◌, raise_if, validation_error, value_error,
}
use judgeloom_core.Accounts.Rows.{Account, Accounts, find_user}
use judgeloom_core.Accounts.Libraries.{
  Claim, Kind, access, foreign, absent, number, digits, other, Payload, seconds, Jwt,
}

-- `int(now.timestamp())`
abbrev pub timestamp : ℕ → ℕ
timestamp now = now / 1000000

abbrev pub access_token_hours : ℕ
access_token_hours = 1

abbrev pub refresh_max_age_days : ℕ
refresh_max_age_days = 30

abbrev pub access_seconds : ℕ
access_seconds = access_token_hours * 3600

abbrev pub max_age : ℕ
max_age = refresh_max_age_days * 86400

-- The payload that `generate_jwt_token` signs.
abbrev pub access_payload : Account → ℕ → ℕ → Payload
access_payload u issued now = record {
  sub = digits u.id;
  user_id = absent;
  kind = access;
  ver = number u.token_version;
  auth_time = number issued;
  iat = timestamp now;
  exp = timestamp (now + seconds access_seconds);
}

-- `auth_time if auth_time is not None else int(now.timestamp())`
abbrev pub issued_at : Option ℕ → ℕ → ℕ
issued_at none now = timestamp now
issued_at (some t) now = t

abbrev pub is_access : Kind → Bool
is_access access = true
is_access _ = false

-- `int(payload.get("ver", 0))`
abbrev pub as_version : Claim → Result ℕ
as_version absent = ok 0
as_version (number n) = ok n
as_version (digits n) = ok n
as_version other = err (value_error "invalid literal for int()")

-- `objects.filter(pk=user_id)` of a text that spells no number raises.
abbrev pub as_key : Claim → Result ℕ
as_key (number n) = ok n
as_key (digits n) = ok n
as_key absent = err (value_error "Field 'id' expected a number.")
as_key other = err (value_error "Field 'id' expected a number.")

-- `payload.get("auth_time", payload.get("iat"))`, which must be an `int`
abbrev pub session_time : Claim → ℕ → Result ℕ
session_time absent iat = ok iat
session_time (number n) iat = ok n
session_time (digits n) iat = err (validation_error "Invalid token session.")
session_time other iat = err (validation_error "Invalid token session.")

abbrev pub or_invalid {ℓ} : {A : Type ℓ} → Option A → Result A
or_invalid none = err (validation_error "Invalid token.")
or_invalid (some a) = ok a

abbrev pub or_no_user : Option Account → Result Account
or_no_user none = err (validation_error "User not found for token.")
or_no_user (some u) = ok u

-- The checks of `refresh_jwt_token` on a decoded token: its user and the start of its session.
unfoldable pub refreshable : Payload → ℕ → Accounts → Result (Account × ℕ)
refreshable p now db = do
  raise_if (not (is_access p.kind)) (validation_error "Unsupported token type.")
  k ← as_key p.sub
  u ← or_no_user (find_user k db)
  raise_if (u.is_banned || not u.is_active) (validation_error "User cannot refresh token.")
  v ← as_version p.ver
  raise_if (not (v == u.token_version)) (validation_error "Token has been revoked.")
  issued ← session_time p.auth_time p.iat
  raise_if (ltb (seconds issued + seconds max_age) now)
      (validation_error "Session expired; log in again.")
  ok (u, issued)

-- `payload.get("type") not in (None, "access")`
abbrev pub is_foreign : Kind → Bool
is_foreign foreign = true
is_foreign _ = false

-- `payload.get("sub") or payload.get("user_id")`
abbrev pub or_claim : Claim → Claim → Claim
or_claim absent d = d
or_claim (number n) d = if n == 0 then d else number n
or_claim (digits n) d = digits n
or_claim other d = other

-- `not user_id`
abbrev pub is_missing : Claim → Bool
is_missing absent = true
is_missing (number n) = n == 0
is_missing _ = false

abbrev pub if_allowed : Option Account → Option Account
if_allowed none = none
if_allowed (some u) = if u.is_active && not u.is_banned then some u else none

-- `objects.get(pk=user_id, is_active=True, is_banned=False)`: the primary key names one row.
abbrev pub find_allowed : ℕ → Accounts → Option Account
find_allowed k db = if_allowed (find_user k db)

abbrev pub with_version : ℕ → Account → Option Account
with_version v u = if not (v == u.token_version) then none else some u

abbrev pub version_checked : Claim → Option Account → Result (Option Account)
version_checked ver none = ok none
version_checked ver (some u) = do v ← as_version ver; ok (with_version v u)

-- `JudgeLoomAuth.authenticate` from the decoded payload on
unfoldable pub authenticated : Payload → Accounts → Result (Option Account)
authenticated p db =
    let key = or_claim p.sub p.user_id in
    if is_foreign p.kind || is_missing key
    then ok none
    else as_key key >>= λ k. version_checked p.ver (find_allowed k db)

abbrev pub from_payload : Option Payload → Accounts → Result (Option Account)
from_payload none db = ok none
from_payload (some p) db = authenticated p db

module _ (jwt : Jwt) where
  open jwt use {Token, encode, decode}

  -- `generate_jwt_token`
  abbrev pub generate_jwt_token : Account → Option ℕ → ℕ → Token
  generate_jwt_token u auth_time now = encode (access_payload u (issued_at auth_time now) now)

  -- `refresh_jwt_token`
  unfoldable pub refresh_jwt_token : Token → ℕ → Accounts → Result Token
  unfolding refreshable
  refresh_jwt_token token now db = do
    p ← or_invalid (decode now token)
    (u, issued) ← refreshable p now db
    ok (generate_jwt_token u (some issued) now)

  -- `JudgeLoomAuth.authenticate`
  unfoldable pub authenticate_token : Token → ℕ → Accounts → Result (Option Account)
  unfolding authenticated
  authenticate_token token now db = from_payload (decode now token) db
