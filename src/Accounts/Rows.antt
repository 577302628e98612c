-- ===== src/Accounts/Rows.antt =====
-- apps/accounts/models/user.py, as far as apps/accounts/services/auth_service.py and
-- apps/accounts/backends.py read and write it.
use judgeloom_core.Base.{ℕ, ◌==◌, Bool, Option, List, ◌∷◌, first, select, update_where}
use judgeloom_core.Base.Text.{Text}

pub record Account : Type 0 where
  pub id : ℕ
  pub username : Text
  pub email : Text
  pub password : Text
  pub is_active : Bool
  pub is_banned : Bool
  pub ban_reason : Text
  pub token_version : ℕ
  pub api_token : Option Text

-- The table of the users, and the users whose live channels were told to disconnect.
pub record Accounts : Type 0 where
  pub next_id : ℕ
  pub users : List Account
  pub disconnected : List ℕ

-- `objects.filter(pk=user_id).first()`
abbrev pub find_user : ℕ → Accounts → Option Account
find_user k db = first (select (λ u. u.id == k) db.users)

-- `user.save(update_fields=…)`: what the fields are set to, in the row of the user.
abbrev pub save_fields : ℕ → (Account → Account) → Accounts → Accounts
save_fields k set db = record db { users = update_where (λ u. u.id == k) set db.users }

-- `_disconnect_user_channels`, which swallows the errors of the channel layer
abbrev pub disconnect : ℕ → Accounts → Accounts
disconnect k db = record db { disconnected = k ∷ db.disconnected }
