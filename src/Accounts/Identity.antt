-- ===== src/Accounts/Identity.antt =====
-- The identity of a user: `create_user`, `authenticate`, `change_password`, `revoke_tokens`,
-- `generate_api_token` and bans (apps/accounts/services/auth_service.py), and the login of Django's
-- pages (apps/accounts/backends.py). The salt and the random token are arguments.
use judgeloom_core.Base.{
  ℕ, suc, ltb, Bool, true, false, not, ◌&&◌, ◌||◌, Option, none, some, [], ◌∷◌, any, first, select,
  length, ◌++◌, String, if◌then◌else◌, Result, ok, err, ◌>>◌, raise_if, validation_error,
  integrity_error,
}
use judgeloom_core.Base.Text.{Text, text_eq, is_empty, strip, lower, iexact}
use judgeloom_core.Accounts.Rows.{Account, Accounts, save_fields, disconnect}
use judgeloom_core.Accounts.Libraries.{Hasher}

abbrev pub new_account : ℕ → Text → Text → Text → Account
new_account k username email password = record {
  id = k;
  username = username;
  email = email;
  password = password;
  is_active = true;
  is_banned = false;
  ban_reason = [];
  token_version = 0;
  api_token = none;
}

-- `filter(username__iexact=…)` and `filter(email__iexact=…)`
abbrev pub has_username : Text → Account → Bool
has_username name u = iexact u.username name

abbrev pub has_email : Text → Account → Bool
has_email email u = iexact u.email email

abbrev pub first_of : Option Account → Option Account → Option Account
first_of none o = o
first_of (some u) o = some u

-- By the user name, and else by the address.
abbrev pub find_identity : Text → Accounts → Option Account
find_identity identity db =
    first_of (first (select (has_username identity) db.users))
      (first (select (has_email identity) db.users))

-- `user.token_version += 1`
abbrev pub bumped : Account → Account → Account
bumped u r = record r { token_version = suc u.token_version }

-- `revoke_tokens`
unfoldable pub revoke_tokens : Account → Accounts → Accounts
revoke_tokens u db = disconnect u.id (save_fields u.id (bumped u) db)

-- `generate_api_token`
unfoldable pub generate_api_token : Account → Text → Accounts → Accounts
generate_api_token u token db = save_fields u.id (λ r. record r { api_token = some token }) db

-- `ban_user`
unfoldable pub ban_user : Account → Text → Accounts → Accounts
ban_user u reason db = disconnect u.id (
    save_fields u.id
      (λ r. record r {
        is_banned = true;
        ban_reason = strip reason;
        token_version = suc u.token_version;
      })
      db)

-- `unban_user`
unfoldable pub unban_user : Account → Accounts → Accounts
unban_user u db = save_fields u.id (λ r. record r { is_banned = false; ban_reason = [] }) db

-- The messages of a refused password, as the exception.
abbrev pub or_weak : Option String → Result (Unit {0})
or_weak none = ok tt
or_weak (some messages) = err (validation_error messages)

module _ (hasher : Hasher) where
  open hasher use {make_password, check_password, validate_password, normalize_username}

  -- `create_user`: Django's `objects.create_user` stores the name in its normal form, which the
  -- unique column may refuse; of an address in lower case its `normalize_email` changes nothing.
  unfoldable pub create_user : Text → Text → Text → ℕ → Accounts → Result (Accounts × Account)
  create_user username email password salt db = do
    let name = strip username
    let address = lower (strip email)
    raise_if (is_empty name) (validation_error "Username is required.")
    raise_if (is_empty address) (validation_error "Email is required.")
    raise_if (ltb (length password) 8) (validation_error "Password must be at least 8 characters.")
    raise_if (any (has_username name) db.users) (validation_error "Username is already in use.")
    raise_if (any (has_email address) db.users) (validation_error "Email is already in use.")
    or_weak (validate_password password none)
    let stored = normalize_username name
    raise_if (any (λ r. text_eq r.username stored) db.users)
        (integrity_error "UNIQUE constraint failed: username")
    let u = new_account db.next_id stored address (make_password salt password)
    ok (record db { next_id = suc db.next_id; users = db.users ++ u ∷ [] }, u)

  -- What the password and the flags of the user found make of a login.
  abbrev pub admitted : Text → Option Account → Option Account
  admitted password none = none
  admitted password (some u) =
      if u.is_banned
      then none
      else (if not (check_password password u.password)
          then none
          else (if not u.is_active then none else some u))

  -- `authenticate`
  unfoldable pub authenticate : Text → Text → Accounts → Option Account
  authenticate username_or_email password db =
      let identity = strip username_or_email in
      if is_empty identity || is_empty password
      then none
      else admitted password (find_identity identity db)

  -- `JudgeLoomBackend.user_can_authenticate`
  abbrev pub user_can_authenticate : Account → Bool
  user_can_authenticate u = u.is_active && not u.is_banned

  abbrev pub backend_admitted : Text → Option Account → Option Account
  backend_admitted password none = none
  backend_admitted password (some u) =
      if not (check_password password u.password)
      then none
      else (if not (user_can_authenticate u) then none else (if u.is_banned then none else some u))

  abbrev pub backend_found : Option Text → Text → Accounts → Option Account
  backend_found none password db = none
  backend_found (some identity) password db = backend_admitted password (find_identity identity db)

  -- `JudgeLoomBackend.authenticate`: `username` is the argument or the field of that name, which
  -- is one keyword of Python, and `email` the one of the other keywords that is read.
  unfoldable pub backend_authenticate :
      Option Text → Option Text → Option Text → Accounts → Option Account
  backend_authenticate username email none db = none
  backend_authenticate none email (some password) db = backend_found email password db
  backend_authenticate (some name) email (some password) db = backend_found (some name) password db

  -- `change_password`
  unfoldable pub change_password : Account → Text → Text → ℕ → Accounts → Result Accounts
  change_password u old new salt db = do
    raise_if (not (check_password old u.password)) (validation_error "Old password is incorrect.")
    raise_if (ltb (length new) 8) (validation_error "New password must be at least 8 characters.")
    or_weak (validate_password new (some u))
    ok (
        disconnect u.id (
          save_fields u.id
            (λ r. record r {
              password = make_password salt new;
              token_version = suc u.token_version;
            })
            db))
