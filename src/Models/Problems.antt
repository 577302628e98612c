-- ===== src/Models/Problems.antt =====
-- apps/problems/models/problem.py and language_limit.py, apps/judge/models/language.py, and who may
-- open a problem.
use judgeloom_core.Base.{
  ℕ, Bool, true, false, not, ◌||◌, Option, List, if◌then◌else◌, contains, select, first, any,
}
use judgeloom_core.Models.Users.{User}
use judgeloom_core.Models.Judging.{Package}

pub data ProblemVisibility : Type 0 where
  private unlisted public contest_only : ProblemVisibility

pub record Language : Type 0 where
  pub id : ℕ
  pub is_enabled : Bool

pub record LanguageLimit : Type 0 where
  pub language_id : ℕ
  pub time_limit : ℕ
  pub memory_limit : ℕ

pub record Problem : Type 0 where
  pub id : ℕ
  pub code : ℕ
  pub visibility : ProblemVisibility
  pub is_organization_private : Bool
  pub authors : List ℕ
  pub curators : List ℕ
  pub testers : List ℕ
  pub organizations : List ℕ
  pub languages_allowed : List ℕ
  pub time_limit : ℕ
  pub memory_limit : ℕ
  pub partial_score : Bool
  pub short_circuit : Bool
  pub packages : List Package
  pub language_limits : List LanguageLimit

-- `is_public or visibility == UNLISTED`
abbrev pub is_open : ProblemVisibility → Bool
is_open public = true
is_open unlisted = true
is_open _ = false

abbrev pub is_problem_staff : User → Problem → Bool
is_problem_staff u p =
    contains u.id p.authors || contains u.id p.curators || contains u.id p.testers

-- `organizations.filter(members__pk=user_id).exists()`
abbrev pub shares_organization : User → List ℕ → Bool
shares_organization u organizations = any (λ o. contains o u.organizations) organizations

-- `Problem.is_accessible_by`
unfoldable pub is_accessible_by : Problem → User → Bool
is_accessible_by p u =
    if is_open p.visibility
    then (if not p.is_organization_private
        then true
        else (if not u.is_authenticated
            then false
            else (if u.is_staff || u.is_superuser
                then true
                else (if is_problem_staff u p
                    then true
                    else shares_organization u p.organizations))))
    else (if not u.is_authenticated
        then false
        else (if u.is_staff || u.is_superuser then true else is_problem_staff u p))

-- `packages.filter(is_active=True).first()`
abbrev pub active_package : Problem → Option Package
active_package p = first (select (λ k. k.is_active) p.packages)
