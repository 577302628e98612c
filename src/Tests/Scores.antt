-- ===== src/Tests/Scores.antt =====
-- The scoring service on reports of a package with two cases of 1 and 2 points.
use judgeloom_core.Base.{◌≡◌, ◌≢◌, ◌≤◌, ◌<◌, ◌⊎◌, refl, arith, true, some, List, [], ◌∷◌}
use judgeloom_core.Base.Dict.{sum_values}
use judgeloom_core.Models.{
  Verdict, ac, wa, partial, is_ac, is_ce_or_ie, SubmissionStatus, Manifest, Group, GroupMode, whole,
}
use judgeloom_core.Scoring.Cases.{ReportedCase}
use judgeloom_core.Scoring.{score, groups_of, flag, total_points_of}
use judgeloom_core.Scoring.Bounds.{HaveTwoDecimals, score-le-total}
use judgeloom_core.Scoring.Verdicts.{score-all_or_nothing, score-ac, score-unsolvable}
use judgeloom_core.Tests.Data.{manifest, reported}

abbrev all_passed : List ReportedCase
all_passed = reported 1 ac 0 ∷ reported 2 ac 0 ∷ []

abbrev one_failed : List ReportedCase
one_failed = reported 1 ac 0 ∷ reported 2 wa 0 ∷ []

abbrev partly : Manifest
partly = record manifest { partial_score = some true }

full_points : (score manifest all_passed).points ≡ whole 3
unfolding score judgeloom_core.Models.round2 judgeloom_core.Models.round4
    judgeloom_core.Scoring.Cases.case_score
full_points = refl

partial_points : (score partly one_failed).points ≡ whole 1
unfolding score judgeloom_core.Models.round2 judgeloom_core.Models.round4
    judgeloom_core.Scoring.Cases.case_score
partial_points = refl

partial_result : (score partly one_failed).result ≡ partial
unfolding score judgeloom_core.Models.round2 judgeloom_core.Models.round4
    judgeloom_core.Scoring.Cases.case_score
partial_result = refl

exact_groups : HaveTwoDecimals (groups_of manifest.cases manifest.groups)
unfolding groups_of
exact_groups = (refl, tt)

score-le-total_example :
    ((score manifest one_failed).points
      ≤ total_points_of (groups_of manifest.cases manifest.groups))
    × (sum_values (score manifest one_failed).subtask_scores
        ≤ total_points_of (groups_of manifest.cases manifest.groups))
score-le-total_example = score-le-total manifest one_failed exact_groups

score-all_or_nothing_example :
    ((score manifest one_failed).result ≢ partial)
    × ((is_ac (score manifest one_failed).result ≡ true)
        ⊎ (is_ce_or_ie (score manifest one_failed).result ≡ true)
        ⊎ (((score manifest one_failed).points ≡ 0)
            × (sum_values (score manifest one_failed).subtask_scores ≡ 0)))
score-all_or_nothing_example = score-all_or_nothing manifest one_failed refl

passed_ac : (score manifest all_passed).result ≡ ac
unfolding score judgeloom_core.Models.round2 judgeloom_core.Models.round4
    judgeloom_core.Scoring.Cases.case_score
passed_ac = refl

score-ac_example :
    (0 < (score manifest all_passed).case_total)
    × ((score manifest all_passed).case_passed ≡ (score manifest all_passed).case_total)
    × ((score manifest all_passed).points
        ≡ total_points_of (groups_of manifest.cases manifest.groups))
    × ((score manifest all_passed).status ≡ SubmissionStatus.completed)
score-ac_example = score-ac manifest all_passed exact_groups passed_ac

-- A group of 1.001 points.
abbrev odd_group : Group
odd_group = record { id = 0; points = 1001000; mode = GroupMode.sum }

abbrev odd : Manifest
odd = record manifest { groups = odd_group ∷ [] }

score-unsolvable_example : (score odd all_passed).result ≢ ac
score-unsolvable_example =
    score-unsolvable odd odd_group all_passed refl (omega arith) (omega arith)
