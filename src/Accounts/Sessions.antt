-- ===== src/Accounts/Sessions.antt =====
-- How long the tokens of one login live.
use judgeloom_core.Base.{
  ℕ, ◌+◌, ◌≤◌, ◌<◌, ◌≡◌, refl, sym, ap, ◌∙◌, arith, Bool, true, false, Option, none, some, ok,
  >>=-eq-ok, ok-injective, if◌then◌else◌,
}
use judgeloom_core.Accounts.Rows.{Account, Accounts}
use judgeloom_core.Accounts.Libraries.{number, Payload, seconds, is_current, Jwt}
use judgeloom_core.Accounts.Tokens.{
  timestamp, access_seconds, max_age, access_payload, refreshable, from_payload, or_invalid,
  generate_jwt_token, refresh_jwt_token, authenticate_token,
}

-- A session's start is kept, and a token that goes out again is no older than it may be.
refreshable-start :
    (p : Payload) (now : ℕ) (db : Accounts) (start : ℕ) {u : Account} {issued : ℕ}
    → p.auth_time ≡ number start
    → refreshable p now db ≡ ok (u, issued)
    → (issued ≡ start) × (now ≤ seconds start + seconds max_age)
unfolding refreshable
refreshable-start p now db start h e = ground arith

-- Who gets in with a decoded payload had one.
pub from_payload-some :
    (o : Option Payload) (db : Accounts) {u : Account}
    → from_payload o db ≡ ok (some u)
    → (p : Payload) × (o ≡ some p)
from_payload-some none db e = absurd (cc)
from_payload-some (some p) db e = (p, refl)

pub or_invalid-eq-ok : (o : Option Payload) {p : Payload} → or_invalid o ≡ ok p → o ≡ some p
or_invalid-eq-ok none e = cc
or_invalid-eq-ok (some q) e = cc

if-some :
    (test : Bool) (p : Payload) {q : Payload}
    → (if test then some p else none) ≡ some q
    → (test ≡ true) × (p ≡ q)
if-some true p e = (refl, cc)
if-some false p e = cc

current-lt : (p : Payload) (now end : ℕ) → is_current p now ≡ true → p.exp ≤ end → now < seconds end
current-lt p now end h le = ground arith

module _ (jwt : Jwt) where
  open jwt use {Token, encode, decode, decode-encode}

  -- The tokens of a session: the one of a login, and those that it is refreshed to, at whatever
  -- times and states of the users.
  pub data Session (start : ℕ) : Token → Type 0 where
    login :
        (u : Account) (now : ℕ)
        → timestamp now ≡ start
        → Session start (generate_jwt_token jwt u none now)
    refreshed :
        {token new : Token} (now : ℕ) (db : Accounts)
        → Session start token
        → refresh_jwt_token jwt token now db ≡ ok new
        → Session start new

  -- What a token decodes to is what was signed.
  pub decode-signed :
      (p : Payload) (now : ℕ) {q : Payload}
      → decode now (encode p) ≡ some q
      → (is_current p now ≡ true) × (p ≡ q)
  decode-signed p now e = if-some (is_current p now) p (sym (decode-encode p now) ∙ e)

  abbrev Signed : ℕ → Token → Type 0
  Signed start token =
      (p : Payload) × (token ≡ encode p)
      × (p.auth_time ≡ number start)
      × (p.exp ≤ start + max_age + access_seconds)

  Session-Signed : {start : ℕ} {token : Token} → Session start token → Signed start token
  unfolding refresh_jwt_token
  Session-Signed (login u now e) =
      (access_payload u (timestamp now) now, refl, ap number e, omega (arith, e))
  Session-Signed {start} (refreshed {token} now db before e) =
      let (p, signed, at, _) = Session-Signed before in
      let (q, decoded, rest) = >>=-eq-ok (or_invalid (decode now token)) _ e in
      let (_, same) =
        decode-signed p now
          (ap (decode now) (sym signed) ∙ or_invalid-eq-ok (decode now token) decoded) in
      let ((u, issued), checked, out) =
        >>=-eq-ok (refreshable q now db)
          (λ (r : Account × ℕ). ok (generate_jwt_token jwt r.0 (some r.1) now)) rest in
      let (kept, age) =
        refreshable-start q now db start (ap (λ p. p.auth_time) (sym same) ∙ at) checked in
      (access_payload u issued now, sym (ok-injective _ _ out), ap number kept, omega (arith, age))

  -- However often a session's token is refreshed, no token of it lets anybody in later than thirty
  -- days and one hour after the login.
  pub authenticate_token-bound :
      {start : ℕ} {token : Token} (now : ℕ) (db : Accounts) (u : Account)
      → Session start token
      → authenticate_token jwt token now db ≡ ok (some u)
      → now < seconds (start + max_age + access_seconds)
  unfolding authenticate_token
  authenticate_token-bound {start} {token} now db u session e =
      let (p, signed, _, ends) = Session-Signed session in
      let (q, decoded) = from_payload-some (decode now token) db e in
      let (current, _) = decode-signed p now (ap (decode now) (sym signed) ∙ decoded) in
      current-lt p now (start + max_age + access_seconds) current ends
