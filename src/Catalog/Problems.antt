-- ===== src/Catalog/Problems.antt =====
-- apps/problems/services/problem_service.py: which problems a user sees and edits, and the counts
-- of a problem's submissions. A rate is in millionths.
use judgeloom_core.Base.{
  ℕ, ◌*◌, ◌==◌, Bool, true, false, not, ◌&&◌, ◌||◌, Option, none, some, List, if◌then◌else◌,
  contains, count_where, select, first, Result, ok, err, not_found,
}
use judgeloom_core.Models.{
  User, Problem, is_open, is_problem_staff, shares_organization, Submission, Verdict, wa, tle, mle,
  rte, ole, ir, is_ac, is_partial, is_run, round_half_even,
}

-- The filter of `get_visible_problems`
unfoldable pub is_listed : User → Problem → Bool
is_listed u p =
    if not u.is_authenticated
    then is_open p.visibility && not p.is_organization_private
    else (if u.is_staff || u.is_superuser
        then true
        else is_open p.visibility
            && (not p.is_organization_private
                || p.is_organization_private && shares_organization u p.organizations)
          || is_problem_staff u p)

-- `get_visible_problems`
unfoldable pub get_visible_problems : User → List Problem → List Problem
unfolding is_listed
get_visible_problems u problems = select (is_listed u) problems

-- `can_edit_problem`
unfoldable pub can_edit_problem : User → Problem → Bool
can_edit_problem u p =
    if not u.is_authenticated
    then false
    else (if u.is_staff || u.is_superuser
        then true
        else contains u.id p.authors || contains u.id p.curators)

abbrev pub or_no_problem : Option Problem → Result Problem
or_no_problem none = err (not_found "Problem does not exist.")
or_no_problem (some p) = ok p

-- `get_problem_by_code`
abbrev pub get_problem_by_code : ℕ → List Problem → Result Problem
get_problem_by_code code problems = or_no_problem (first (select (λ p. p.code == code) problems))

-- The results that count as wrong
abbrev pub is_wrong_result : Verdict → Bool
is_wrong_result wa = true
is_wrong_result tle = true
is_wrong_result mle = true
is_wrong_result rte = true
is_wrong_result ole = true
is_wrong_result ir = true
is_wrong_result _ = false

abbrev pub with_result : (Verdict → Bool) → Option Verdict → Bool
with_result test none = false
with_result test (some v) = test v

-- `filter(problem=problem, mode=SUBMIT)`
abbrev pub is_submitted : ℕ → Submission → Bool
is_submitted k s = s.problem_id == k && not (is_run s.mode)

pub record Statistics : Type 0 where
  pub total_submissions : ℕ
  pub total_public_solutions : ℕ
  pub total_accepted : ℕ
  pub total_partial : ℕ
  pub total_wrong : ℕ
  pub accepted_rate : ℕ

-- `round(total_correct / total_submissions * 100.0, 2)`
abbrev pub rate_of : ℕ → ℕ → ℕ
rate_of correct total = if total == 0 then 0 else round_half_even (correct * 10000) total * 10000

-- `get_problem_statistics`, for the number of the problem's public solutions
unfoldable pub get_problem_statistics : ℕ → ℕ → List Submission → Statistics
unfolding round_half_even
get_problem_statistics k solutions submissions =
    let rows = select (is_submitted k) submissions in
    let total = count_where (λ s. true) rows in
    let correct = count_where (λ s. with_result is_ac s.result) rows in
    record {
      total_submissions = total;
      total_public_solutions = solutions;
      total_accepted = correct;
      total_partial = count_where (λ s. with_result is_partial s.result) rows;
      total_wrong = count_where (λ s. with_result is_wrong_result s.result) rows;
      accepted_rate = rate_of correct total;
    }
