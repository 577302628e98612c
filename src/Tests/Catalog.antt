-- ===== src/Tests/Catalog.antt =====
-- Lists of problems, statistics, and the reports of the older bridge.
use judgeloom_core.Base.{
  ◌+◌, ◌≤◌, ◌≡◌, refl, true, ◌==◌, none, some, List, [], ◌∷◌, select, ok, leb, ◌&&◌, map, any,
  false,
}
use judgeloom_core.Base.Int.{pos}
use judgeloom_core.Models.{
  User, Problem, ProblemVisibility, Submission, Verdict, ac, known, Store, is_accessible_by, whole,
  find_submission,
}
use judgeloom_core.Judge.Callbacks.{or_keep}
use judgeloom_core.Catalog.Problems.{get_visible_problems, get_problem_statistics}
use judgeloom_core.Base.Text.{Text, codes, lower, strip, is_empty}
use judgeloom_core.Catalog.Tags.{
  Tags, tag_problem, untag_problem, get_popular_tags, get_problems_by_tag,
}
use judgeloom_core.Catalog.Tagging.{tag_problem-get_problems_by_tag}
use judgeloom_core.Catalog.Listing.{
  get_visible_problems-is_accessible_by, get_problem_statistics_bounds,
}
use judgeloom_core.Submissions.Create.{insert_submission}
use judgeloom_core.Submissions.Reports.{
  CaseData, update_test_case_result, ResultData, update_submission_result,
}
use judgeloom_core.Tests.Data.{alice, problem, submitted}

abbrev secret : Problem
secret = record problem { id = 11; code = 78; visibility = ProblemVisibility.private }

abbrev members_only : Problem
members_only = record problem { id = 12; is_organization_private = true; organizations = 4 ∷ [] }

abbrev catalog : List Problem
catalog = problem ∷ secret ∷ members_only ∷ []

listed : get_visible_problems alice catalog ≡ problem ∷ []
unfolding get_visible_problems judgeloom_core.Catalog.Problems.is_listed
listed = refl

member_sees :
    get_visible_problems (record alice { organizations = 4 ∷ [] }) catalog
    ≡ problem ∷ members_only ∷ []
unfolding get_visible_problems judgeloom_core.Catalog.Problems.is_listed
member_sees = refl

get_visible_problems-is_accessible_by_example :
    get_visible_problems alice catalog ≡ select (λ p. is_accessible_by p alice) catalog
get_visible_problems-is_accessible_by_example = get_visible_problems-is_accessible_by alice catalog

abbrev case_data : CaseData
case_data = record {
  case_number = 2;
  status = known ac;
  time_used = 10;
  memory_used = 20;
  points = pos 0;
  total_points = pos 0;
  feedback = "";
  output = "";
  case_total = none;
}

abbrev counted : Store
counted = or_keep submitted (update_test_case_result 100 case_data submitted)

counted_ok : update_test_case_result 100 case_data submitted ≡ ok counted
unfolding update_test_case_result insert_submission
counted_ok = refl

abbrev result_data : ResultData
result_data = record {
  status = none;
  result = some (known ac);
  points = some (whole 3);
  time_used = none;
  memory_used = none;
  case_total = none;
  case_passed = none;
  current_testcase = none;
  error_message = none;
}

abbrev done : Store
done = or_keep counted (update_submission_result 100 result_data (whole 90) counted)

-- One of one submissions is accepted.
accepted : (get_problem_statistics 10 0 done.submissions).accepted_rate ≡ whole 100
unfolding get_problem_statistics judgeloom_core.Models.round_half_even update_submission_result
    update_test_case_result insert_submission
accepted = refl

get_problem_statistics_bounds_example :
    ((get_problem_statistics 10 0 done.submissions).total_accepted
        + (get_problem_statistics 10 0 done.submissions).total_partial
        + (get_problem_statistics 10 0 done.submissions).total_wrong
      ≤ (get_problem_statistics 10 0 done.submissions).total_submissions)
    × ((get_problem_statistics 10 0 done.submissions).accepted_rate ≤ whole 100)
get_problem_statistics_bounds_example = get_problem_statistics_bounds 10 0 done.submissions

-- Letters only: enough of `slugify` for these names.
abbrev letters : Text → Text
letters name = select (λ c. leb 97 c && leb c 122) (lower name)

abbrev no_tags : Tags
no_tags = record { next_id = 1; rows = [] }

abbrev as_cpp : Tags
as_cpp = (tag_problem letters problem (codes " C++" ∷ codes " " ∷ []) no_tags).0

tagged_ok : tag_problem letters problem (codes " C++" ∷ codes " " ∷ []) no_tags ≡ (as_cpp, ok tt)
unfolding tag_problem strip
tagged_ok = refl

-- Another name with the code "c" is the same tag, which is not removed under that name.
csharp : (tag_problem letters problem (codes "C#" ∷ []) as_cpp).0 ≡ as_cpp
unfolding tag_problem strip
csharp = refl

csharp_stays : untag_problem problem (codes "C#" ∷ []) as_cpp ≡ as_cpp
unfolding untag_problem tag_problem strip
csharp_stays = refl

cpp_removed :
    get_problems_by_tag (codes "c") alice catalog (untag_problem problem (codes "C++" ∷ []) as_cpp)
    ≡ ok []
unfolding get_problems_by_tag untag_problem tag_problem strip
cpp_removed = refl

popular : map (λ t. t.code) (get_popular_tags 20 alice catalog as_cpp) ≡ codes "c" ∷ []
unfolding get_popular_tags tag_problem strip
popular = refl

filled : is_empty (strip (codes " C++")) ≡ false
unfolding strip
filled = refl

tag_problem-get_problems_by_tag_example :
    (found : List Problem) × (get_problems_by_tag
        (letters (strip (codes " C++")))
        alice
        catalog
        as_cpp
      ≡ ok found)
    × (any (λ q. q.id == problem.id) found
        ≡ any (λ q. q.id == problem.id) (get_visible_problems alice catalog))
tag_problem-get_problems_by_tag_example =
    tag_problem-get_problems_by_tag letters problem (codes " C++" ∷ codes " " ∷ []) (codes " C++")
      alice catalog no_tags as_cpp tagged_ok refl filled
