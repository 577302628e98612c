-- ===== src/Accounts/Libraries.antt =====
-- What the accounts rely on of PyJWT and of Django's password hashers. A time is a number of
-- microseconds, and a claim's time a number of seconds.
use judgeloom_core.Base.{
  ℕ, ◌*◌, ◌≡◌, true, ◌&&◌, Bool, Option, none, some, leb, ltb, if◌then◌else◌, String,
}
use judgeloom_core.Base.Text.{Text}
use judgeloom_core.Accounts.Rows.{Account}

-- A value in the payload of a token: no such key, a number, a text that spells a number, or any
-- other value that counts as true.
pub data Claim : Type 0 where
  absent : Claim
  number : ℕ → Claim
  digits : ℕ → Claim
  other : Claim

-- The value of `type`: no such key, `"access"`, or another one.
pub data Kind : Type 0 where
  untyped access foreign : Kind

-- The claims that the code reads. Every token that the site signed has an `iat` and an `exp`.
pub record Payload : Type 0 where
  pub sub : Claim
  pub user_id : Claim
  pub kind : Kind
  pub ver : Claim
  pub auth_time : Claim
  pub iat : ℕ
  pub exp : ℕ

-- A number of seconds, in microseconds.
abbrev pub seconds : ℕ → ℕ
seconds n = n * 1000000

-- The library's checks of a token's times: issued already, and not expired.
abbrev pub is_current : Payload → ℕ → Bool
is_current p now = leb (seconds p.iat) now && ltb now (seconds p.exp)

-- `jwt.encode` and `jwt.decode` with the site's key. What `encode` made decodes to its payload
-- while it is current.
pub record Jwt : Type 1 where
  pub Token : Type 0
  pub encode : Payload → Token
  pub decode : ℕ → Token → Option Payload
  pub decode-encode :
      (p : Payload) (now : ℕ) → decode now (encode p) ≡ (if is_current p now then some p else none)

-- `make_password`, with the salt it draws, `check_password`, `validate_password`, with the messages
-- of a password that it refuses, and `normalize_username`, which puts a name in the form NFKC.
pub record Hasher : Type 0 where
  pub make_password : ℕ → Text → Text
  pub check_password : Text → Text → Bool
  pub validate_password : Text → Option Account → Option String
  pub normalize_username : Text → Text
  pub check-make :
      (salt : ℕ) (password : Text) → check_password password (make_password salt password) ≡ true
