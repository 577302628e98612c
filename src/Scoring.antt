-- ===== src/Scoring.antt =====
-- apps/judge/services/scoring_service.py: the verdict and the points of a submission, from the
-- package's cases and groups and the results that a worker reported.
pub mod Cases
pub mod Groups
pub mod Bounds
pub mod Verdicts
pub mod FullReports
pub mod FullMarks
use judgeloom_core.Base.{
  ℕ, suc, ◌+◌, ◌*◌, Bool, true, false, not, ◌&&◌, ◌||◌, Option, none, some, List, [], ◌∷◌, ◌++◌,
  map, length, any, get_elem?, ltb, leb, ◌==◌, if◌then◌else◌, is_some, max, min,
}
use judgeloom_core.Base.Dict.{Dict, lookup, insert, get_or, sum_values}
use judgeloom_core.Models.{
  Verdict, ac, wa, tle, mle, rte, ce, ole, ie, partial, is_ac, is_ce, is_ie, is_ce_or_ie,
  is_partial, normalize, SubmissionStatus, Group, GroupMode, ManifestCase, Manifest, round2, round4,
}
use judgeloom_core.Scoring.Cases.{ReportedCase, case_score}

-- The id of the group named "default".
abbrev pub default_group : ℕ
default_group = 0

abbrev pub sum_points : List ManifestCase → ℕ
sum_points [] = 0
sum_points (c ∷ cs) = c.points + sum_points cs

-- `manifest.get("groups") or [...]`
unfoldable pub groups_of : List ManifestCase → List Group → List Group
groups_of cases [] =
    record { id = default_group; points = sum_points cases; mode = GroupMode.sum } ∷ []
groups_of cases (g ∷ gs) = g ∷ gs

-- `{group["id"]: group for group in groups}`
abbrev pub group_defs_from : List Group → Dict Group → Dict Group
group_defs_from [] d = d
group_defs_from (g ∷ gs) d = group_defs_from gs (insert g.id g d)

abbrev pub empty_scores : Dict Group → Dict (List ℕ)
empty_scores [] = []
empty_scores ((k, _) ∷ d) = (k, []) ∷ empty_scores d

-- `next(iter(group_defs), "default")`
abbrev pub first_key : Dict Group → ℕ
first_key [] = default_group
first_key ((k, _) ∷ _) = k

-- The group that a case's score is added to.
abbrev pub group_for : Dict Group → ManifestCase → ℕ
group_for defs c =
    if is_some (lookup c.group defs)
    then c.group
    else (if is_some (lookup default_group defs) then default_group else first_key defs)

-- `case_scores.setdefault(group_id, []).append(score)`
unfoldable pub append_score : ℕ → ℕ → Dict (List ℕ) → Dict (List ℕ)
append_score g x d = insert g (get_or g [] d ++ (x ∷ [])) d

-- The running values of the loop over the reported cases.
pub record Tally : Type 0 where
  pub case_scores : Dict (List ℕ)
  pub statuses : Dict Verdict
  pub time_used : ℕ
  pub memory_used : ℕ
  pub case_passed : ℕ

-- The manifest's case with the number, which counts from 1.
abbrev pub manifest_case : List ManifestCase → ℕ → Option ManifestCase
manifest_case cases ℕ.zero = none
manifest_case cases (suc i) = get_elem? cases i

unfoldable pub tally_case : Dict Group → Option ManifestCase → ReportedCase → Tally → Tally
unfolding append_score
tally_case defs none c t = t
tally_case defs (some m) c t =
    let status = normalize c.status in
    record {
      case_scores =
          append_score (group_for defs m) (case_score m.points status c.points c.total_points)
            t.case_scores;
      statuses = insert c.case_number status t.statuses;
      time_used = max t.time_used c.time_used;
      memory_used = max t.memory_used c.memory_used;
      case_passed = t.case_passed + (if is_ac status then 1 else 0);
    }

unfoldable pub tally_cases : Dict Group → List ManifestCase → List ReportedCase → Tally → Tally
unfolding tally_case
tally_cases defs cases [] t = t
tally_cases defs cases (c ∷ cs) t =
    tally_cases defs cases cs (tally_case defs (manifest_case cases c.case_number) c t)

-- The second loop: a case that no result came for scores 0 in its group.
unfoldable pub add_missing :
    Dict Group → Dict Verdict → ℕ → List ManifestCase → Dict (List ℕ) → Dict (List ℕ)
unfolding append_score
add_missing defs statuses number [] d = d
add_missing defs statuses number (m ∷ ms) d =
    add_missing defs statuses (suc number) ms
      (if is_some (lookup number statuses) then d else append_score (group_for defs m) 0 d)

abbrev pub sum_list : List ℕ → ℕ
sum_list [] = 0
sum_list (x ∷ xs) = x + sum_list xs

abbrev pub min_list : ℕ → List ℕ → ℕ
min_list x [] = x
min_list x (y ∷ ys) = min x (min_list y ys)

abbrev pub group_total : GroupMode → List ℕ → ℕ
group_total m [] = 0
group_total GroupMode.sum (x ∷ xs) = sum_list (x ∷ xs)
group_total GroupMode.minimum (x ∷ xs) = min_list x xs

-- The score of one group, at most its points.
abbrev pub group_score : Option Group → List ℕ → ℕ
group_score none scores = round4 (min (group_total GroupMode.sum scores) 0)
group_score (some g) scores = round4 (min (group_total g.mode scores) g.points)

unfoldable pub subtask_scores_of : Dict Group → Dict (List ℕ) → Dict ℕ
subtask_scores_of defs [] = []
subtask_scores_of defs ((g, scores) ∷ d) =
    (g, group_score (lookup g defs) scores) ∷ subtask_scores_of defs d

abbrev pub total_points_of : List Group → ℕ
total_points_of [] = 0
total_points_of (g ∷ gs) = g.points + total_points_of gs

abbrev pub is_tle : Verdict → Bool
is_tle tle = true
is_tle _ = false

abbrev pub is_mle : Verdict → Bool
is_mle mle = true
is_mle _ = false

abbrev pub is_rte : Verdict → Bool
is_rte rte = true
is_rte _ = false

abbrev pub is_ole : Verdict → Bool
is_ole ole = true
is_ole _ = false

-- `verdict in set(statuses.values())`
abbrev pub reports : (Verdict → Bool) → Dict Verdict → Bool
reports test statuses = any (λ e. test e.1) statuses

-- `_aggregate_result`
unfoldable pub aggregate_result : Dict Verdict → ℕ → ℕ → ℕ → ℕ → Verdict
aggregate_result statuses points total_possible case_total case_passed =
    if reports is_ce statuses
    then ce
    else (if reports is_ie statuses
        then ie
        else (if reports is_tle statuses
            then tle
            else (if reports is_mle statuses
                then mle
                else (if reports is_rte statuses
                    then rte
                    else (if reports is_ole statuses
                        then ole
                        else (if ltb 0 case_total
                              && case_passed == case_total
                              && (total_possible == 0 || leb total_possible points)
                            then ac
                            else (if ltb 0 points then partial else wa)))))))

pub record ScoreSummary : Type 0 where
  pub points : ℕ
  pub subtask_scores : Dict ℕ
  pub result : Verdict
  pub status : SubmissionStatus
  pub case_total : ℕ
  pub case_passed : ℕ
  pub time_used : ℕ
  pub memory_used : ℕ

abbrev pub zero_scores : Dict ℕ → Dict ℕ
zero_scores = map (λ e. (e.0, 0))

abbrev pub flag : Option Bool → Bool
flag none = false
flag (some b) = b

-- Without partial scores only AC, CE and IE keep the points.
unfoldable pub apply_partial_policy : Bool → ScoreSummary → ScoreSummary
apply_partial_policy partial_score s =
    if not partial_score && not (is_ac s.result || is_ce_or_ie s.result)
    then record s {
      points = 0;
      subtask_scores = zero_scores s.subtask_scores;
      result = if is_partial s.result then wa else s.result;
    }
    else s

abbrev pub final_status : Verdict → SubmissionStatus
final_status v = if is_ce_or_ie v then SubmissionStatus.error else SubmissionStatus.completed

abbrev pub with_status : ScoreSummary → ScoreSummary
with_status s = record s { status = final_status s.result }

abbrev pub case_total_of : List ManifestCase → List ReportedCase → ℕ
case_total_of [] reported = length reported
case_total_of (c ∷ cs) reported = length (c ∷ cs)

unfoldable pub initial_tally : Dict Group → Tally
initial_tally defs = record {
  case_scores = empty_scores defs;
  statuses = [];
  time_used = 0;
  memory_used = 0;
  case_passed = 0;
}

-- What is computed before the policy on partial scores.
unfoldable pub raw_summary : Manifest → List ReportedCase → ScoreSummary
unfolding groups_of tally_cases add_missing subtask_scores_of aggregate_result initial_tally
raw_summary m reported =
    let groups = groups_of m.cases m.groups in
    let defs = group_defs_from groups [] in
    let t = tally_cases defs m.cases reported (initial_tally defs) in
    let subtasks = subtask_scores_of defs (add_missing defs t.statuses 1 m.cases t.case_scores) in
    let points = round2 (sum_values subtasks) in
    let case_total = case_total_of m.cases reported in
    record {
      points = points;
      subtask_scores = subtasks;
      result = aggregate_result t.statuses points (total_points_of groups) case_total t.case_passed;
      status = SubmissionStatus.completed;
      case_total = case_total;
      case_passed = t.case_passed;
      time_used = t.time_used;
      memory_used = t.memory_used;
    }

-- `ScoringService.score`
unfoldable pub score : Manifest → List ReportedCase → ScoreSummary
unfolding raw_summary apply_partial_policy
score m reported =
    with_status (apply_partial_policy (flag m.partial_score) (raw_summary m reported))
