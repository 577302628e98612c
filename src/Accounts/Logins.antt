-- ===== src/Accounts/Logins.antt =====
-- Who gets in with a password or a fresh token.
use judgeloom_core.Base.{
  ℕ, ◌+◌, ◌≤◌, ◌≡◌, refl, sym, ap, ◌∙◌, subst, arith, Bool, true, false, Option, none, some, List,
  [], ◌∷◌, ◌++◌, any, length, ltb, inl, inr, Bool-cases, first, select, ok, if◌then◌else◌,
}
use judgeloom_core.Base.Text.{Text, is_empty, strip, lower, iexact, text_eq_refl}
use judgeloom_core.Accounts.Rows.{Account, Accounts, find_user}
use judgeloom_core.Accounts.Libraries.{is_current, seconds, Jwt, Hasher}
use judgeloom_core.Accounts.Tokens.{
  timestamp, access_seconds, access_payload, issued_at, authenticated, from_payload,
  generate_jwt_token, authenticate_token,
}
use judgeloom_core.Accounts.Identity.{
  has_username, find_identity, new_account, create_user, authenticate, admitted, backend_admitted,
  backend_authenticate,
}

any-none :
    (p : Account → Bool) (us : List Account) (u : Account)
    → any p us ≡ false
    → p u ≡ true
    → first (select p (us ++ u ∷ [])) ≡ some u
any-none p [] u none_yet own = rw own refl
any-none p (x ∷ us) u none_yet own =
    let skip : p x ≡ false = ground arith in rw skip (any-none p us u (ground arith) own)

long_enough : (password : Text) → ltb (length password) 8 ≡ false → is_empty password ≡ false
long_enough [] h = ground arith
long_enough (c ∷ password) h = refl

module _ (hasher : Hasher) where
  -- Django's pages and the API let the same users in, where the name is given without spaces
  -- around it, and a password is given at all.
  pub backend_authenticate-authenticate :
      (identity password : Text) (email : Option Text) (db : Accounts)
      → strip identity ≡ identity
      → is_empty identity ≡ false
      → is_empty password ≡ false
      → backend_authenticate hasher (some identity) email (some password) db
        ≡ authenticate hasher identity password db
  unfolding backend_authenticate authenticate
  backend_authenticate-authenticate identity password email db trimmed named given =
      rw (trimmed, named, given) (same_admitted (find_identity identity db))
    where
      same_admitted :
          (o : Option Account) → backend_admitted hasher password o ≡ admitted hasher password o
      same_admitted none = refl
      same_admitted (some u) = ground arith

  created :
      (username email password : Text) (salt : ℕ) (db new : Accounts) {u : Account}
      → create_user hasher username email password salt db ≡ ok (new, u)
      → (is_empty (strip username) ≡ false)
        × (ltb (length password) 8 ≡ false)
        × (any (has_username (strip username)) db.users ≡ false)
        × (u
            ≡ new_account db.next_id
                (hasher.normalize_username (strip username))
                (lower (strip email))
                (hasher.make_password salt password))
        × (new.users ≡ db.users ++ u ∷ [])
  unfolding create_user
  created username email password salt db new e = ground arith

  -- Who registers with a name in normal form can log in at once, with the name and the password as
  -- they were typed.
  pub create_user-authenticate :
      (username email password : Text) (salt : ℕ) (db new : Accounts) (u : Account)
      → create_user hasher username email password salt db ≡ ok (new, u)
      → hasher.normalize_username (strip username) ≡ strip username
      → authenticate hasher username password new ≡ some u
  unfolding authenticate
  create_user-authenticate username email password salt db new u e normal =
      let (named, long, fresh, is, saved) = created username email password salt db new e in
      let by_name : first (select (has_username (strip username)) new.users) ≡ some u =
        ap (λ us. first (select (has_username (strip username)) us)) saved
        ∙ any-none (has_username (strip username)) db.users u fresh (
            subst (λ u. has_username (strip username) u ≡ true) (sym is)
              (subst (λ n. iexact n (strip username) ≡ true) (sym normal)
                (text_eq_refl (lower (strip username))))) in
      rw (named, long_enough password long, by_name)
        (subst (λ u. admitted hasher password (some u) ≡ some u) (sym is)
          (rw (hasher.check-make salt password) refl))

lets_in :
    (u : Account) (issued t now : ℕ) (db : Accounts)
    → find_user u.id db ≡ some u
    → u.is_active ≡ true
    → u.is_banned ≡ false
    → t ≤ now
    → from_payload
        (if is_current (access_payload u issued t) now
          then some (access_payload u issued t)
          else none)
        db
      ≡ ok (if ltb now (seconds (timestamp t + access_seconds)) then some u else none)
unfolding authenticated
lets_in u issued t now db found active free before =
    elim (Bool-cases (ltb now (seconds (timestamp t + access_seconds)))) [
      | inl c ↦
          let current : is_current (access_payload u issued t) now ≡ true = ground arith in
          rw (current, c, found, active, free) (ground arith)
      | inr f ↦
          let late : is_current (access_payload u issued t) now ≡ false = ground arith in
          rw (late, f) refl
    ]

module _ (jwt : Jwt) where
  -- A token lets its user in for one hour, to the second below, and nobody afterwards, while the
  -- user is active, not banned, and keeps the version of the token.
  pub generate_jwt_token-authenticate_token :
      (u : Account) (session : Option ℕ) (t now : ℕ) (db : Accounts)
      → find_user u.id db ≡ some u
      → u.is_active ≡ true
      → u.is_banned ≡ false
      → t ≤ now
      → authenticate_token jwt (generate_jwt_token jwt u session t) now db
        ≡ ok (if ltb now (seconds (timestamp t + access_seconds)) then some u else none)
  unfolding authenticate_token
  generate_jwt_token-authenticate_token u session t now db found active free before =
      rw (jwt.decode-encode (access_payload u (issued_at session t) t) now)
        (lets_in u (issued_at session t) t now db found active free before)
