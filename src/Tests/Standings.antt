-- ===== src/Tests/Standings.antt =====
-- The formats and the rankings on short histories.
use judgeloom_core.Base.{
  ℕ, ◌≡◌, ◌+◌, ◌*◌, ◌/◌, refl, true, false, Option, none, some, List, [], ◌∷◌, ◌++◌, map, length,
  count_where, select, ltb, All, Result, ◌==◌,
}
use mathlib.Core.List.{Perm}
use judgeloom_core.Base.Sort.{IsSorted}
use judgeloom_core.Models.{Participation, Submission, Verdict, ac, wa, ce, whole, minute}
use judgeloom_core.Formats.Common.{is_accepted, submission_time}
use judgeloom_core.Formats.Default.{default_result}
use judgeloom_core.Formats.Icpc.{icpc_result, wrong_penalty}
use judgeloom_core.Formats.Penalties.{is_wrong, icpc_result-solved}
use judgeloom_core.Formats.BestPoints.{best_of, latest_ac, default_result-best}
use judgeloom_core.Ranking.{ranked_participations, stored_entry, entry_order, get_ranking}
use judgeloom_core.Ranking.Order.{AreRanked, qualified, entries_of, ranks_of, get_ranking-ordered}
use judgeloom_core.Submissions.Create.{new_submission}
use judgeloom_core.Tests.Data.{contest, entry, request, site}

-- A submission of the entry, with its verdict and points.
abbrev attempt : ℕ → ℕ → Verdict → ℕ → Submission
attempt k second v points = record (new_submission request k (whole second)) {
  result = some v;
  points = points;
  subtask_scores = (k, points) ∷ [];
}

abbrev wrong_first : List Submission
wrong_first = attempt 1 60 wa 0 ∷ attempt 2 90 ce 0 ∷ []

abbrev solving : Submission
solving = attempt 3 130 ac (whole 3)

abbrev later : List Submission
later = attempt 4 200 wa 0 ∷ []

unsolved : All (λ s. is_accepted s ≡ false) wrong_first
unsolved = (refl, (refl, tt))

-- One penalty of 20 minutes, at minute 2.
penalty : (icpc_result contest entry (wrong_first ++ (solving ∷ later))).penalty_minutes ≡ 22
unfolding icpc_result judgeloom_core.Formats.Icpc.icpc_scan new_submission
penalty = refl

icpc_result-solved_example : icpc_result contest entry (wrong_first ++ (solving ∷ later)) ≡ record {
  points = whole 1;
  attempts = count_where is_wrong wrong_first + 1;
  wrong_attempts = count_where is_wrong wrong_first;
  solved = true;
  solve_minutes = submission_time contest entry solving / minute;
  penalty_minutes =
      submission_time contest entry solving / minute
      + count_where is_wrong wrong_first
        * wrong_penalty contest.format_config.wrong_penalty_minutes;
}
icpc_result-solved_example =
    icpc_result-solved contest entry wrong_first solving later unsolved refl

default_result-best_example : default_result contest entry (solving ∷ later) ≡ record {
  points = best_of (solving ∷ later);
  attempts = length (solving ∷ later);
  ac_seconds = latest_ac contest entry (solving ∷ later);
  solved = ltb 0 (latest_ac contest entry (solving ∷ later));
}
default_result-best_example = default_result-best contest entry (solving ∷ later)

get_ranking-ordered_example :
    AreRanked 1 (get_ranking contest site)
    × Perm (entries_of (get_ranking contest site)) (map stored_entry (qualified contest site))
get_ranking-ordered_example = get_ranking-ordered contest site

one_ranked : ranks_of (get_ranking contest site) ≡ 1 ∷ []
unfolding get_ranking judgeloom_core.Base.Sort.sort_by ranked_participations
    judgeloom_core.Ranking.participations_of
one_ranked = refl

-- A submission after second 500.
abbrev late : List Submission
late = attempt 5 600 ac (whole 3) ∷ []

-- The standing that the late submission gives.
abbrev raised : List Participation
raised = record entry { score = whole 1; cumulative_time = whole 540 } ∷ []
