-- ===== src/Models/Users.antt =====
-- apps/accounts/models/user.py, as far as the services read it. A user that is not authenticated
-- is Django's AnonymousUser.
use judgeloom_core.Base.{ℕ, Bool, List}

pub record User : Type 0 where
  pub id : ℕ
  pub is_authenticated : Bool
  pub is_staff : Bool
  pub is_superuser : Bool
  pub organizations : List ℕ
