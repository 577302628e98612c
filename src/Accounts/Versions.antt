-- ===== src/Accounts/Versions.antt =====
-- The version of a user's tokens never falls.
use judgeloom_core.Base.{
  ℕ, suc, ◌≤◌, ◌≡◌, refl, sym, ap, ◌∙◌, subst, arith, true, false, some, List, [], ◌∷◌, ◌++◌, ◌==◌,
  ==_iff, inl, inr, Bool-cases, first, first-append, select, select_keep, select_skip, update_where,
  ok, if◌then◌else◌,
}
use judgeloom_core.Base.Text.{Text}
use judgeloom_core.Accounts.Rows.{Account, Accounts, find_user, save_fields}
use judgeloom_core.Accounts.Libraries.{Hasher}
use judgeloom_core.Accounts.Identity.{
  create_user, revoke_tokens, generate_api_token, ban_user, unban_user, change_password,
}

module _ (hasher : Hasher) where
  -- An operation on the accounts. The user that it is called with is the row as it is stored.
  pub data Change : Accounts → Accounts → Type 0 where
    creates :
        (username email password : Text) (salt : ℕ) {u : Account} {db new : Accounts}
        → create_user hasher username email password salt db ≡ ok (new, u)
        → Change db new
    revokes :
        {u : Account} {db : Accounts} → find_user u.id db ≡ some u → Change db (revoke_tokens u db)
    gets_token :
        (token : Text) {u : Account} {db : Accounts}
        → find_user u.id db ≡ some u
        → Change db (generate_api_token u token db)
    bans :
        (reason : Text) {u : Account} {db : Accounts}
        → find_user u.id db ≡ some u
        → Change db (ban_user u reason db)
    unbans :
        {u : Account} {db : Accounts} → find_user u.id db ≡ some u → Change db (unban_user u db)
    changes :
        (old password : Text) (salt : ℕ) {u : Account} {db new : Accounts}
        → find_user u.id db ≡ some u
        → change_password hasher u old password salt db ≡ ok new
        → Change db new

  pub data Changes (db : Accounts) : Accounts → Type 0 where
    start : Changes db db
    after : {mid new : Accounts} → Changes db mid → Change mid new → Changes db new

-- That a user is stored with at least a version.
abbrev pub HasVersion : ℕ → ℕ → Accounts → Type 0
HasVersion k v db = (u : Account) × (find_user k db ≡ some u) × (v ≤ u.token_version)

changed-id :
    (j : ℕ) (set : Account → Account) (x : Account)
    → ((r : Account) → (set r).id ≡ r.id)
    → (if x.id == j then set x else x).id ≡ x.id
changed-id j set x same = elim (Bool-cases (x.id == j)) [
  | inl t ↦ rw t (same x)
  | inr f ↦ rw f refl
]

changed_version :
    (k v j : ℕ) (set : Account → Account) (x : Account)
    → (x.id == k) ≡ true
    → ((j == k) ≡ true → v ≤ (set x).token_version)
    → ((j == k) ≡ false → v ≤ x.token_version)
    → v ≤ (if x.id == j then set x else x).token_version
changed_version k v j set x own up below = elim (Bool-cases (x.id == j)) [
  | inl t ↦ rw t (up (ground arith))
  | inr f ↦ rw f (below (ground arith))
]

some-injective : (x u : Account) → some x ≡ some u → x ≡ u
some-injective x u e = cc

first-set :
    (k v j : ℕ) (set : Account → Account) (users : List Account) {u : Account}
    → ((r : Account) → (set r).id ≡ r.id)
    → ((j == k) ≡ true → v ≤ (set u).token_version)
    → ((j == k) ≡ false → v ≤ u.token_version)
    → first (select (λ u. u.id == k) users) ≡ some u
    → (r : Account) × (first (select (λ u. u.id == k) (update_where (λ u. u.id == j) set users))
        ≡ some r)
      × (v ≤ r.token_version)
first-set k v j set [] same up below e = absurd (cc)
first-set k v j set (x ∷ xs) {u} same up below e = elim (Bool-cases (x.id == k)) [
  | inl t ↦
      let head : x ≡ u =
        some-injective x u (ap first (sym (select_keep (λ u. u.id == k) x xs t)) ∙ e) in
      (
        if x.id == j then set x else x,
        ap first (
            select_keep (λ u. u.id == k) _ (update_where (λ u. u.id == j) set xs)
              (ap (λ i. i == k) (changed-id j set x same) ∙ t)),
        changed_version k v j set x t
            (subst (λ r. (j == k) ≡ true → v ≤ (set r).token_version) (sym head) up)
            (subst (λ r. (j == k) ≡ false → v ≤ r.token_version) (sym head) below),
      )
  | inr f ↦
      let (r, found, ge) =
        first-set k v j set xs same up below
          (ap first (sym (select_skip (λ u. u.id == k) x xs f)) ∙ e) in
      (
        r,
        ap first (
              select_skip (λ u. u.id == k) _ (update_where (λ u. u.id == j) set xs)
                (ap (λ i. i == k) (changed-id j set x same) ∙ f))
            ∙ found,
        ge,
      )
]

pub save_fields-HasVersion :
    (k v j : ℕ) (set : Account → Account) (db : Accounts) {u : Account}
    → ((r : Account) → (set r).id ≡ r.id)
    → find_user k db ≡ some u
    → ((j == k) ≡ false → v ≤ u.token_version)
    → ((j == k) ≡ true → v ≤ (set u).token_version)
    → HasVersion k v (save_fields j set db)
save_fields-HasVersion k v j set db same found below up =
    first-set k v j set db.users same up below found

-- The row that an operation is called with is the one of its id.
bumped_version :
    (k v : ℕ) (u w : Account) (db : Accounts)
    → find_user u.id db ≡ some u
    → find_user k db ≡ some w
    → v ≤ w.token_version
    → (u.id == k) ≡ true
    → v ≤ suc u.token_version
bumped_version k v u w db own found below is_k =
    let same : u ≡ w =
      some-injective u w (sym own ∙ (ap (λ i. find_user i db) ((==_iff u.id k).0 is_k) ∙ found)) in
    omega (arith, below, ap (λ r. r.token_version) same)

create_user-users :
    (hasher : Hasher) (username email password : Text) (salt : ℕ) (db : Accounts) {u : Account}
    {new : Accounts}
    → create_user hasher username email password salt db ≡ ok (new, u)
    → new.users ≡ db.users ++ u ∷ []
unfolding create_user
create_user-users hasher username email password salt db e = ground arith

abbrev new_password : Account → Text → Account → Account
new_password u password r = record r { password = password; token_version = suc u.token_version }

change_password-saved :
    (hasher : Hasher) (u : Account) (old password : Text) (salt : ℕ) (db new : Accounts)
    → change_password hasher u old password salt db ≡ ok new
    → new.users ≡ (save_fields u.id (new_password u (hasher.make_password salt password)) db).users
unfolding change_password
change_password-saved hasher u old password salt db new e = ground arith

pub changed_password-HasVersion :
    (hasher : Hasher) (k v : ℕ) (u : Account) (old password : Text) (salt : ℕ) (db new : Accounts)
    → change_password hasher u old password salt db ≡ ok new
    → HasVersion k v (save_fields u.id (new_password u (hasher.make_password salt password)) db)
    → HasVersion k v new
changed_password-HasVersion hasher k v u old password salt db new e (w, found, ge) = (
  w,
  ap (λ us. first (select (λ u. u.id == k) us))
        (change_password-saved hasher u old password salt db new e)
      ∙ found,
  ge,
)

Change-HasVersion :
    (hasher : Hasher) (k v : ℕ) {db new : Accounts}
    → Change hasher db new
    → HasVersion k v db
    → HasVersion k v new
unfolding revoke_tokens generate_api_token ban_user unban_user
Change-HasVersion hasher k v (creates username email password salt {u} {db} {new} e)
      (w, found, ge) =
    (
      w,
      ap (λ us. first (select (λ u. u.id == k) us))
            (create_user-users hasher username email password salt db e)
          ∙ first-append (λ u. u.id == k) db.users (u ∷ []) found,
      ge,
    )
Change-HasVersion hasher k v (revokes {u} {db} own) (w, found, ge) =
    save_fields-HasVersion k v u.id _ db (λ r. refl) found (λ _. ge)
      (bumped_version k v u w db own found ge)
Change-HasVersion hasher k v (gets_token token {u} {db} own) (w, found, ge) =
    save_fields-HasVersion k v u.id _ db (λ r. refl) found (λ _. ge) (λ _. ge)
Change-HasVersion hasher k v (bans reason {u} {db} own) (w, found, ge) =
    save_fields-HasVersion k v u.id _ db (λ r. refl) found (λ _. ge)
      (bumped_version k v u w db own found ge)
Change-HasVersion hasher k v (unbans {u} {db} own) (w, found, ge) =
    save_fields-HasVersion k v u.id _ db (λ r. refl) found (λ _. ge) (λ _. ge)
Change-HasVersion hasher k v (changes old password salt {u} {db} {new} own e) (w, found, ge) =
    changed_password-HasVersion hasher k v u old password salt db new e (
      save_fields-HasVersion k v u.id _ db (λ r. refl) found (λ _. ge)
        (bumped_version k v u w db own found ge))

pub Changes-HasVersion :
    (hasher : Hasher) (k v : ℕ) {db new : Accounts}
    → Changes hasher db new
    → HasVersion k v db
    → HasVersion k v new
Changes-HasVersion hasher k v start h = h
Changes-HasVersion hasher k v (after before change) h =
    Change-HasVersion hasher k v change (Changes-HasVersion hasher k v before h)
