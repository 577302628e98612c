-- ===== src/Tests/Accounts.antt =====
-- Logins and tokens of a small site, with a signature that signs nothing and passwords that are
-- stored as they are.
use judgeloom_core.Base.{
  ℕ, ◌+◌, ◌<◌, ◌≡◌, refl, Bool, false, true, ltb, Option, none, some, List, [], ◌∷◌, if◌then◌else◌,
  Result, ok, err, arith,
}
use judgeloom_core.Base.Text.{Text, codes, text_eq, text_eq_refl}
use judgeloom_core.Accounts.Rows.{Account, Accounts, find_user}
use judgeloom_core.Accounts.Libraries.{Payload, Jwt, Hasher, is_current, seconds}
use judgeloom_core.Accounts.Tokens.{
  generate_jwt_token, refresh_jwt_token, authenticate_token, timestamp, access_seconds, max_age,
}
use judgeloom_core.Accounts.Identity.{
  new_account, create_user, authenticate, backend_authenticate, ban_user, unban_user,
}
use judgeloom_core.Accounts.Sessions.{login, refreshed, authenticate_token-bound}
use judgeloom_core.Accounts.Versions.{start, after, unbans}
use judgeloom_core.Accounts.Revocation.{banned, is_ok, revoked_token-refused}
use judgeloom_core.Accounts.Logins.{
  backend_authenticate-authenticate, create_user-authenticate,
  generate_jwt_token-authenticate_token,
}

abbrev plain : Jwt
plain = record {
  Token = Payload;
  encode = λ p. p;
  decode = λ now p. if is_current p now then some p else none;
  decode-encode = λ p now. refl;
}

abbrev same_password : Text → Text → Bool
same_password password [] = false
same_password password (salt ∷ stored) = text_eq password stored

abbrev salted : Hasher
salted = record {
  make_password = λ salt password. salt ∷ password;
  check_password = same_password;
  validate_password = λ password user. none;
  normalize_username = λ name. name;
  check-make = λ salt password. text_eq_refl password;
}

abbrev nobody : Accounts
nobody = record { next_id = 1; users = []; disconnected = [] }

abbrev alice : Account
alice = new_account 1 (codes "Alice") (codes "a@x.org") (7 ∷ codes "longenough")

abbrev joined : Accounts
joined = record { next_id = 2; users = alice ∷ []; disconnected = [] }

-- The spaces and the case of the address are dropped.
registered :
    create_user salted (codes " Alice ") (codes "A@x.org") (codes "longenough") 7 nobody
    ≡ ok (joined, alice)
unfolding create_user judgeloom_core.Base.Text.strip
registered = refl

create_user-authenticate_example :
    authenticate salted (codes " Alice ") (codes "longenough") joined ≡ some alice
create_user-authenticate_example =
    create_user-authenticate salted (codes " Alice ") (codes "A@x.org") (codes "longenough") 7
      nobody joined alice registered refl

trimmed : judgeloom_core.Base.Text.strip (codes "alice") ≡ codes "alice"
unfolding judgeloom_core.Base.Text.strip
trimmed = refl

backend_authenticate-authenticate_example :
    backend_authenticate salted (some (codes "alice")) none (some (codes "longenough")) joined
    ≡ authenticate salted (codes "alice") (codes "longenough") joined
backend_authenticate-authenticate_example =
    backend_authenticate-authenticate salted (codes "alice") (codes "longenough") none joined
      trimmed refl refl

generate_jwt_token-authenticate_token_example :
    authenticate_token plain
      (generate_jwt_token plain alice none (seconds 100))
      (seconds 200)
      joined
    ≡ ok (
        if ltb (seconds 200) (seconds (timestamp (seconds 100) + access_seconds))
        then some alice
        else none)
generate_jwt_token-authenticate_token_example =
    generate_jwt_token-authenticate_token plain alice none (seconds 100) (seconds 200) joined refl
      refl refl (omega arith)

again :
    refresh_jwt_token plain
      (generate_jwt_token plain alice none (seconds 100))
      (seconds 3000)
      joined
    ≡ ok (generate_jwt_token plain alice (some 100) (seconds 3000))
unfolding refresh_jwt_token
again = refl

lets_alice_in :
    authenticate_token plain
      (generate_jwt_token plain alice (some 100) (seconds 3000))
      (seconds 5000)
      joined
    ≡ ok (some alice)
unfolding authenticate_token
lets_alice_in = refl

authenticate_token-bound_example : seconds 5000 < seconds (100 + max_age + access_seconds)
authenticate_token-bound_example =
    authenticate_token-bound plain (seconds 5000) joined alice
      (refreshed (seconds 3000) joined (login alice (seconds 100) refl) again) lets_alice_in

abbrev out : Accounts
out = ban_user alice (codes "spam") joined

abbrev banned_alice : Account
banned_alice = record alice { is_banned = true; ban_reason = codes "spam"; token_version = 1 }

stays : find_user 1 out ≡ some banned_alice
unfolding ban_user judgeloom_core.Base.Text.strip
stays = refl

-- A ban that is lifted does not bring the old tokens back.
revoked_token-refused_example :
    (authenticate_token plain
        (generate_jwt_token plain alice none (seconds 100))
        (seconds 200)
        (unban_user banned_alice out)
      ≡ ok none)
    × (is_ok (
          refresh_jwt_token plain
            (generate_jwt_token plain alice none (seconds 100))
            (seconds 200)
            (unban_user banned_alice out))
        ≡ false)
revoked_token-refused_example =
    revoked_token-refused plain salted alice joined out (unban_user banned_alice out) none
      (seconds 100) (seconds 200) refl (banned (codes "spam")) (after start (unbans stays))
