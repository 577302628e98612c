-- ===== src/Accounts/Revocation.antt =====
-- Revoked tokens stay out, whatever happens to the accounts afterwards.
use judgeloom_core.Base.{
  ℕ, suc, ◌<◌, ◌≡◌, refl, arith, Bool, true, false, Option, none, some, inl, inr, Bool-cases,
  Result, ok, err, ◌>>=◌,
}
use judgeloom_core.Base.Text.{Text}
use judgeloom_core.Accounts.Rows.{Account, Accounts, find_user}
use judgeloom_core.Accounts.Libraries.{is_current, Jwt, Hasher}
use judgeloom_core.Accounts.Tokens.{
  access_payload, issued_at, refreshable, authenticated, generate_jwt_token, refresh_jwt_token,
  authenticate_token,
}
use judgeloom_core.Accounts.Identity.{revoke_tokens, ban_user, change_password}
use judgeloom_core.Accounts.Versions.{
  Changes, HasVersion, save_fields-HasVersion, changed_password-HasVersion, Changes-HasVersion,
}

module _ (hasher : Hasher) where
  -- What makes a user's tokens void: a logout, a ban, or a new password.
  pub data Revocation (u : Account) (db : Accounts) : Accounts → Type 0 where
    logs_out : Revocation u db (revoke_tokens u db)
    banned : (reason : Text) → Revocation u db (ban_user u reason db)
    changed :
        (old password : Text) (salt : ℕ) {new : Accounts}
        → change_password hasher u old password salt db ≡ ok new
        → Revocation u db new

  Revocation-HasVersion :
      {u : Account} {db new : Accounts}
      → find_user u.id db ≡ some u
      → Revocation u db new
      → HasVersion u.id (suc u.token_version) new
  unfolding revoke_tokens ban_user
  Revocation-HasVersion {u} {db} own logs_out =
      save_fields-HasVersion u.id _ u.id _ db (λ r. refl) own (λ f. ground arith) (λ _. omega arith)
  Revocation-HasVersion {u} {db} own (banned reason) =
      save_fields-HasVersion u.id _ u.id _ db (λ r. refl) own (λ f. ground arith) (λ _. omega arith)
  Revocation-HasVersion {u} {db} {new} own (changed old password salt e) =
      changed_password-HasVersion hasher u.id _ u old password salt db new e (
        save_fields-HasVersion u.id _ u.id _ db (λ r. refl) own (λ f. ground arith)
          (λ _. omega arith))

abbrev pub is_ok {ℓ} : {A : Type ℓ} → Result A → Bool
is_ok (ok a) = true
is_ok (err e) = false

not_ok_bind {ℓ κ} :
    {A : Type ℓ} {B : Type κ} (m : Result A) (f : A → Result B)
    → is_ok m ≡ false
    → is_ok (m >>= f) ≡ false
not_ok_bind (ok a) f h = cc
not_ok_bind (err e) f h = refl

refused :
    (u w : Account) (issued t now : ℕ) (db : Accounts)
    → find_user u.id db ≡ some w
    → u.token_version < w.token_version
    → (authenticated (access_payload u issued t) db ≡ ok none)
      × (is_ok (refreshable (access_payload u issued t) now db) ≡ false)
unfolding authenticated refreshable
refused u w issued t now db found lt = rw found (ground arith)

module _ (jwt : Jwt) (hasher : Hasher) where
  open jwt use {decode, decode-encode}

  refused_token :
      (u w : Account) (issued t now : ℕ) (db : Accounts)
      → find_user u.id db ≡ some w
      → u.token_version < w.token_version
      → (authenticate_token jwt (jwt.encode (access_payload u issued t)) now db ≡ ok none)
        × (is_ok (refresh_jwt_token jwt (jwt.encode (access_payload u issued t)) now db) ≡ false)
  unfolding authenticate_token refresh_jwt_token
  refused_token u w issued t now db found lt =
      rw (decode-encode (access_payload u issued t) now)
        (elim (Bool-cases (is_current (access_payload u issued t) now)) [
          | inl c ↦ rw c (
              let (out, again) = refused u w issued t now db found lt in
              (out, not_ok_bind (refreshable (access_payload u issued t) now db) _ again))
          | inr f ↦ rw f (refl, refl)
        ])

  -- Once a user has logged out, was banned, or has a new password, no token that went out to the
  -- user before lets anybody in or can be refreshed, whatever happens to the accounts afterwards.
  pub revoked_token-refused :
      (u : Account) (db mid new : Accounts) (session : Option ℕ) (t now : ℕ)
      → find_user u.id db ≡ some u
      → Revocation hasher u db mid
      → Changes hasher mid new
      → (authenticate_token jwt (generate_jwt_token jwt u session t) now new ≡ ok none)
        × (is_ok (refresh_jwt_token jwt (generate_jwt_token jwt u session t) now new) ≡ false)
  revoked_token-refused u db mid new session t now own revoked later =
      let (w, found, gt) =
        Changes-HasVersion hasher u.id (suc u.token_version) later
          (Revocation-HasVersion hasher own revoked) in
      refused_token u w (issued_at session t) t now new found gt
