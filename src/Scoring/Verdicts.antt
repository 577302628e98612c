-- ===== src/Scoring/Verdicts.antt =====
-- Which verdict a submission gets, and what it costs.
use judgeloom_core.Base.{ℕ, ◌+◌, ◌%◌, ◌≤◌, ◌<◌, ◌≡◌, ◌≢◌, ◌⊎◌, true, false, List, [], ◌∷◌, arith}
use judgeloom_core.Base.Dict.{sum_values}
use judgeloom_core.Models.{
  ac, partial, is_ac, is_ce_or_ie, SubmissionStatus, Group, Manifest, round2, round4, round2_mono,
}
use judgeloom_core.Scoring.Cases.{ReportedCase}
use judgeloom_core.Scoring.{
  groups_of, total_points_of, flag, aggregate_result, apply_partial_policy, raw_summary, score,
}
use judgeloom_core.Scoring.Bounds.{
  HaveTwoDecimals, list_caps, sum_values-zero, subtasks-le, raw_points-eq, raw_points-le,
}

-- On a problem without partial scores no submission is judged PARTIAL, and one that is not judged
-- AC, CE or IE has no points, in total and in every subtask.
pub score-all_or_nothing :
    (m : Manifest) (reported : List ReportedCase)
    → flag m.partial_score ≡ false
    → ((score m reported).result ≢ partial)
      × ((is_ac (score m reported).result ≡ true)
          ⊎ (is_ce_or_ie (score m reported).result ≡ true)
          ⊎ (((score m reported).points ≡ 0) × (sum_values (score m reported).subtask_scores ≡ 0)))
unfolding score apply_partial_policy
score-all_or_nothing m reported h =
    ground (arith, sum_values-zero (raw_summary m reported).subtask_scores)

raw_result-ac :
    (m : Manifest) (reported : List ReportedCase)
    → (raw_summary m reported).result ≡ ac
    → ((raw_summary m reported).case_passed ≡ (raw_summary m reported).case_total)
      × (0 < (raw_summary m reported).case_total)
      × (total_points_of (groups_of m.cases m.groups) ≤ (raw_summary m reported).points)
unfolding raw_summary aggregate_result
raw_result-ac m reported h = ground arith

-- A submission is judged AC only if there is a case, as many reports of AC are counted as there are
-- cases, and the points are exactly the total of the groups, where these have at most two decimals;
-- its status is then COMPLETED.
pub score-ac :
    (m : Manifest) (reported : List ReportedCase)
    → HaveTwoDecimals (groups_of m.cases m.groups)
    → (score m reported).result ≡ ac
    → (0 < (score m reported).case_total)
      × ((score m reported).case_passed ≡ (score m reported).case_total)
      × ((score m reported).points ≡ total_points_of (groups_of m.cases m.groups))
      × ((score m reported).status ≡ SubmissionStatus.completed)
unfolding score apply_partial_policy
score-ac m reported d h = ground (arith, raw_result-ac m reported, raw_points-le m reported d)

raw_points-le-caps :
    (m : Manifest) (reported : List ReportedCase)
    → (raw_summary m reported).points ≤ round2 (list_caps (groups_of m.cases m.groups))
raw_points-le-caps m reported = omega (
  arith,
  raw_points-eq m reported,
  subtasks-le m reported,
  round2_mono (sum_values (raw_summary m reported).subtask_scores)
      (list_caps (groups_of m.cases m.groups)),
)

lost_hundredth : (n : ℕ) → 0 < n % 10000 → n % 10000 < 4900 → round2 (round4 n + 0) < n + 0
unfolding round2 round4
lost_hundredth n h k = ground arith

-- A package with one group, whose points exceed a whole number of hundredths by less than 0.0049,
-- cannot be solved: whatever is reported, the rounded points fall short of the total, so no
-- submission is judged AC.
pub score-unsolvable :
    (m : Manifest) (g : Group) (reported : List ReportedCase)
    → m.groups ≡ g ∷ []
    → 0 < g.points % 10000
    → g.points % 10000 < 4900
    → (score m reported).result ≢ ac
unfolding score apply_partial_policy groups_of
score-unsolvable m g reported e h k =
    ground
      (arith, raw_result-ac m reported, raw_points-le-caps m reported, lost_hundredth g.points h k)
