-- ===== src/Tests/Entering.antt =====
-- Seeing, joining, entering and scheduling the contest.
use judgeloom_core.Base.{
  ℕ, ◌≡◌, ◌⊎◌, ◌||◌, refl, true, false, Bool, Option, none, some, List, [], ◌∷◌, map, contains,
  if◌then◌else◌, All, Result, ok, err, contest_error, suc,
}
use judgeloom_core.Models.{
  Store, Contest, Participation, ContestProblem, is_active, is_upcoming, whole,
}
use judgeloom_core.Contests.Access.{
  can_join_contest, get_visible_contests, SeenOrTester, get_visible_contests-can_see_contest,
}
use judgeloom_core.Contests.Joining.{join_contest}
use judgeloom_core.Contests.Entries.{
  entry_of, contest_problem_of, limit_reached, used_submissions, submit_to_contest, Entered,
  submit_to_contest-Entered,
}
use judgeloom_core.Contests.Problems.{
  same_set, labels_of, placed, reorder_problems, reorder_problems-placed,
}
use judgeloom_core.Tests.Data.{alice, bob, language, settings, contest, entry, site}

may_join : can_join_contest bob contest none false (whole 10) site ≡ true
unfolding can_join_contest
may_join = refl

get_visible_contests-can_see_contest_example :
    All (SeenOrTester bob site) (get_visible_contests bob site)
get_visible_contests-can_see_contest_example =
    get_visible_contests-can_see_contest bob site (λ e. refl)

abbrev joined_or : Result (Store × Participation) → Store × Participation
joined_or (ok r) = r
joined_or (err e) = (site, entry)

abbrev joined : Store × Participation
joined = joined_or (join_contest contest bob none (whole 10) site)

join_ok : join_contest contest bob none (whole 10) site ≡ ok (joined.0, joined.1)
unfolding join_contest can_join_contest
join_ok = refl

abbrev store_or : Result Store → Store
store_or (ok db) = db
store_or (err e) = site

abbrev entered : Store
entered = store_or (submit_to_contest settings alice contest 77 language "print(1)" (whole 60) site)

submit_ok :
    submit_to_contest settings alice contest 77 language "print(1)" (whole 60) site ≡ ok entered
unfolding submit_to_contest judgeloom_core.Ranking.participations_of
    judgeloom_core.Base.Sort.sort_by judgeloom_core.Ranking.problems_of used_submissions
    judgeloom_core.Submissions.Create.create_submission judgeloom_core.Models.is_accessible_by
    judgeloom_core.Submissions.Create.recent_count
submit_ok = refl

submit_to_contest-Entered_example :
    (part : Participation) × (cp : ContestProblem) × (entry_of contest alice site ≡ some part)
    × (contest_problem_of contest 77 site ≡ some cp)
    × Entered contest alice (whole 60) part
    × (limit_reached cp.max_submissions (used_submissions part cp site) ≡ false)
    × (used_submissions part cp entered ≡ suc (used_submissions part cp site))
submit_to_contest-Entered_example =
    submit_to_contest-Entered settings alice contest 77 language "print(1)" (whole 60) site entered
      submit_ok

first_entry : entry_of contest alice site ≡ some entry
unfolding entry_of judgeloom_core.Ranking.participations_of judgeloom_core.Base.Sort.sort_by
first_entry = refl

reorder_problems-placed_example : reorder_problems contest (1 ∷ []) site ≡ (
    if same_set (labels_of contest site.contest_problems) (1 ∷ [])
    then ok
        (record site { contest_problems = map (placed contest 1 (1 ∷ [])) site.contest_problems })
    else err (contest_error "Label set mismatch for reorder operation."))
reorder_problems-placed_example = reorder_problems-placed contest (1 ∷ []) site
