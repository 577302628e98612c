-- ===== src/Contests/Access.antt =====
-- apps/contests/services/contest_service.py: who may see a contest and who may join it.
use text.Mathlib.Text.{◌==◌ as str_eq}
use judgeloom_core.Base.{
  ℕ, ◌≡◌, ◌⊎◌, inl, inr, String, Bool, true, false, not, ◌&&◌, ◌||◌, Option, none, some, List,
  arith, ◌==◌, if◌then◌else◌, contains, any, select, Bool-cases, All, All-weaken, select-holds,
  All-if, select-passes,
}
use judgeloom_core.Models.{
  User, Contest, ContestVisibility, is_upcoming, is_finished, is_active, shares_organization, Store,
}

abbrev pub is_public : ContestVisibility → Bool
is_public ContestVisibility.public = true
is_public _ = false

-- `ContestService.is_contest_staff`
unfoldable pub is_contest_staff : User → Contest → Bool
is_contest_staff u c =
    if not u.is_authenticated
    then false
    else (if u.is_staff || u.is_superuser
        then true
        else contains u.id c.organizers || contains u.id c.curators)

-- `contest.participations.filter(user=user).exists()`
abbrev pub takes_part : User → Contest → Store → Bool
takes_part u c db = any (λ p. p.contest_id == c.id && p.user_id == u.id) db.participations

-- What the visibility grants a user who is no staff of the contest.
abbrev pub seen_by_visibility : ContestVisibility → User → Contest → Store → Bool
seen_by_visibility ContestVisibility.private u c db = takes_part u c db
seen_by_visibility ContestVisibility.organization u c db = shares_organization u c.organizations
seen_by_visibility ContestVisibility.public u c db = false

-- `ContestService.can_see_contest`
unfoldable pub can_see_contest : User → Contest → Store → Bool
unfolding is_contest_staff
can_see_contest u c db =
    if not c.is_visible
    then is_contest_staff u c
    else (if is_public c.visibility
        then true
        else (if not u.is_authenticated
            then false
            else (if is_contest_staff u c then true else seen_by_visibility c.visibility u c db)))

-- `contest.access_code and access_code and hmac.compare_digest(...)`: an empty code never matches.
abbrev pub code_matches : String → Option String → Bool
code_matches code none = false
code_matches code (some given) = not (str_eq code "") && not (str_eq given "") && str_eq code given

-- `ContestService.can_join_contest`
unfoldable pub can_join_contest : User → Contest → Option String → Bool → ℕ → Store → Bool
unfolding can_see_contest
can_join_contest u c access_code allow_finished now db =
    if not u.is_authenticated
    then false
    else (if contains u.id c.banned_users
        then false
        else (if is_upcoming c now
            then false
            else (if is_finished c now && not allow_finished
                then false
                else (if is_contest_staff u c
                    then true
                    else (if code_matches c.access_code access_code
                        then true
                        else (if not c.is_visible
                            then false
                            else (if is_public c.visibility
                                then true
                                else can_see_contest u c db)))))))

abbrev pub is_listed : User → Contest → Bool
is_listed u c =
    is_public c.visibility
    || contains u.id c.organizers
    || contains u.id c.curators
    || contains u.id c.testers
    || elim c.visibility [
      | ContestVisibility.organization ↦ shares_organization u c.organizations
      | _ ↦ false
    ]

-- `ContestService.get_visible_contests`
unfoldable pub get_visible_contests : User → Store → List Contest
get_visible_contests u db =
    let base = select (λ c. c.is_visible) db.contests in
    if u.is_superuser || u.is_staff
    then base
    else (if not u.is_authenticated
        then select (λ c. is_public c.visibility) base
        else select (is_listed u) base)

-- Who may join is logged in, not banned, and joins a contest that has begun and, unless finished
-- ones are allowed, has not ended.
pub can_join_contest-guards :
    (u : User) (c : Contest) (code : Option String) (allow_finished : Bool) (now : ℕ) (db : Store)
    → can_join_contest u c code allow_finished now db ≡ true
    → (u.is_authenticated ≡ true)
      × (contains u.id c.banned_users ≡ false)
      × (is_upcoming c now ≡ false)
      × (allow_finished ≡ false → is_active c now ≡ true)
unfolding can_join_contest
can_join_contest-guards u c code allow_finished now db h = ground arith

-- Without the access code, only a contest that the user can see can be joined.
pub can_join_contest-can_see_contest :
    (u : User) (c : Contest) (code : Option String) (allow_finished : Bool) (now : ℕ) (db : Store)
    → code_matches c.access_code code ≡ false
    → can_join_contest u c code allow_finished now db ≡ true
    → can_see_contest u c db ≡ true
unfolding can_join_contest can_see_contest
can_join_contest-can_see_contest u c code allow_finished now db wrong h = ground arith

abbrev pub SeenOrTester : User → Store → Contest → Type 0
SeenOrTester u db c = (can_see_contest u c db ≡ true) ⊎ (contains u.id c.testers ≡ true)

listed-seen :
    (u : User) (c : Contest) (db : Store)
    → u.is_authenticated ≡ true
    → c.is_visible ≡ true
    → is_listed u c ≡ true
    → SeenOrTester u db c
unfolding can_see_contest is_contest_staff
listed-seen u c db known visible listed = elim (Bool-cases (contains u.id c.testers)) [
  | inl e ↦ inr e
  | inr e ↦ inl (ground arith)
]

-- A contest in a user's list is one that the user can see, or one whose testers the user is among.
pub get_visible_contests-can_see_contest :
    (u : User) (db : Store)
    → (u.is_superuser || u.is_staff ≡ true → u.is_authenticated ≡ true)
    → All (SeenOrTester u db) (get_visible_contests u db)
unfolding get_visible_contests can_see_contest is_contest_staff
get_visible_contests-can_see_contest u db logged_in =
    let base = select (λ c. c.is_visible) db.contests in
    let visible = select-passes (λ c. c.is_visible) db.contests in
    All-if (SeenOrTester u db) (u.is_superuser || u.is_staff) base
      (if not u.is_authenticated
        then select (λ c. is_public c.visibility) base
        else select (is_listed u) base)
      (λ staff. All-weaken (λ c v. inl (ground (arith, logged_in staff))) base visible)
      (λ other.
        All-if (SeenOrTester u db) (not u.is_authenticated)
          (select (λ c. is_public c.visibility) base) (select (is_listed u) base)
          (λ anonymous.
            All-weaken (λ c h. inl (ground arith)) (select (λ c. is_public c.visibility) base)
              (select-holds (λ c. c.is_visible ≡ true) (λ c. is_public c.visibility) base visible))
          (λ known.
            All-weaken (λ c h. listed-seen u c db (ground arith) h.0 h.1)
              (select (is_listed u) base)
              (select-holds (λ c. c.is_visible ≡ true) (is_listed u) base visible)))
