-- ===== src/Submissions/Access.antt =====
-- Who may see a submission and who may change its sharing, and the queries for submissions.
use judgeloom_core.Base.{
  ℕ, ◌≡◌, ◌⊎◌, Bool, true, false, not, ◌&&◌, ◌||◌, Option, none, some, List, arith, ◌==◌,
  if◌then◌else◌, is_id, select, first, contains, All, All-select, All-weaken, All-trivial,
  select-holds, Bool-cases, inl, inr, Result, ok, err, not_found,
}
use judgeloom_core.Models.{
  User, Submission, is_run, Problem, Store, find_submission, save_submission,
}

-- `get_submission`
abbrev pub get_submission : ℕ → Store → Result Submission
get_submission k db = elim (find_submission k db) [
  | none ↦ err (not_found "Submission was not found.")
  | some s ↦ ok s
]

-- `get_submission_by_share_token`: a token that is no UUID finds nothing.
unfoldable pub get_submission_by_share_token : Option ℕ → Store → Option Submission
get_submission_by_share_token none db = none
get_submission_by_share_token (some token) db =
    first (select (λ s. is_id s.share_token token) db.submissions)

-- `get_user_submissions`
unfoldable pub get_user_submissions : User → Option ℕ → Store → List Submission
get_user_submissions u problem db =
    let scored = select (λ s. not (is_run s.mode)) db.submissions in
    let own = if u.is_staff then scored else select (λ s. s.user_id == u.id) scored in
    elim problem [ none ↦ own | some p ↦ select (λ s. s.problem_id == p) own ]

-- `_is_problem_maintainer`, of the submission's problem
abbrev pub is_problem_maintainer : User → Problem → Bool
is_problem_maintainer u p =
    u.is_authenticated && (contains u.id p.authors || contains u.id p.curators)

-- `can_view_submission_private`
unfoldable pub can_view_submission_private : User → Submission → Problem → Bool
can_view_submission_private u s p =
    if not u.is_authenticated
    then false
    else (if u.is_staff || s.user_id == u.id then true else is_problem_maintainer u p)

-- `can_view_submission`
unfoldable pub can_view_submission : User → Submission → Problem → Bool
can_view_submission u s p =
    if s.is_public
    then true
    else (if not u.is_authenticated
        then false
        else (if u.is_staff || s.user_id == u.id then true else is_problem_maintainer u p))

-- `can_edit_submission`
unfoldable pub can_edit_submission : User → Submission → Bool
can_edit_submission u s = if not u.is_authenticated then false else u.is_staff || s.user_id == u.id

-- `set_submission_public`
abbrev pub set_submission_public : Submission → Bool → Store → Store
set_submission_public s is_public db = save_submission (record s { is_public = is_public }) db

-- `create_share_token`, with the token that `uuid.uuid4()` returned
abbrev pub create_share_token : Submission → ℕ → Store → Store
create_share_token s token db = save_submission (record s { share_token = some token }) db

-- `revoke_share_token`
abbrev pub revoke_share_token : Submission → Store → Store
revoke_share_token s db = save_submission (record s { share_token = none }) db

-- Who sees a submission's metadata: everyone if it is public, and otherwise exactly those who may
-- also see its source. Who may edit it may see it whole; and no anonymous user sees its source or
-- may edit it.
pub view_levels :
    (u : User) (s : Submission) (p : Problem)
    → (can_view_submission u s p ≡ s.is_public || can_view_submission_private u s p)
      × (can_edit_submission u s ≡ true → can_view_submission_private u s p ≡ true)
      × (can_view_submission_private u s p ≡ true → u.is_authenticated ≡ true)
unfolding can_view_submission can_view_submission_private can_edit_submission
view_levels u s p = ground arith

abbrev pub OwnScored : User → Submission → Type 0
OwnScored u s = (is_run s.mode ≡ false) × ((u.is_staff ≡ true) ⊎ (s.user_id ≡ u.id))

own_rows :
    (u : User) (subs : List Submission)
    → (u.is_staff ≡ true) ⊎ (u.is_staff ≡ false)
    → All (OwnScored u) (
        if u.is_staff
        then select (λ s. not (is_run s.mode)) subs
        else select (λ s. s.user_id == u.id) (select (λ s. not (is_run s.mode)) subs))
own_rows u subs staff =
    let scored = select-holds (λ _. Unit {0}) (λ s. not (is_run s.mode)) subs (All-trivial subs) in
    elim staff [
      | inl e ↦
          rw e (All-weaken (λ s h. ground arith) (select (λ s. not (is_run s.mode)) subs) scored)
      | inr e ↦ rw e (
          All-weaken (λ s h. ground arith)
            (select (λ s. s.user_id == u.id) (select (λ s. not (is_run s.mode)) subs))
            (select-holds (λ s. Unit {0} × (not (is_run s.mode) ≡ true)) (λ s. s.user_id == u.id)
              (select (λ s. not (is_run s.mode)) subs) scored))
    ]

-- `get_user_submissions` shows a user who is no staff only that user's own scored submissions; a
-- run is shown to nobody.
pub get_user_submissions-own :
    (u : User) (problem : Option ℕ) (db : Store)
    → All (OwnScored u) (get_user_submissions u problem db)
unfolding get_user_submissions
get_user_submissions-own u problem db =
    let scored = select (λ s. not (is_run s.mode)) db.submissions in
    let own = if u.is_staff then scored else select (λ s. s.user_id == u.id) scored in
    let own_only : All (OwnScored u) own = own_rows u db.submissions (Bool-cases u.is_staff) in
    elim problem
      as (λ o.
        All (OwnScored u) (elim o [ none ↦ own | some p ↦ select (λ s. s.problem_id == p) own ])) [
          | none ↦ own_only
          | some p ↦ All-select (OwnScored u) (λ s. s.problem_id == p) own own_only
        ]
