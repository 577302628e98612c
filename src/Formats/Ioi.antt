-- ===== src/Formats/Ioi.antt =====
-- apps/contests/formats/ioi.py: the best score of each subtask over all submissions.
use judgeloom_core.Base.{ℕ, ◌+◌, Option, List, [], ◌∷◌, length, ltb, max}
use judgeloom_core.Base.Dict.{Dict, insert, get_or, sum_values}
use judgeloom_core.Models.{
  Submission, ContestProblem, Participation, IoiResult, Calculation, ioi_data,
}
use judgeloom_core.Formats.Common.{submission_queryset}

-- `for subtask, value in submission_subtasks.items()`
unfoldable pub merge_subtasks : Dict ℕ → Dict ℕ → Dict ℕ
merge_subtasks best [] = best
merge_subtasks best ((subtask, value) ∷ rest) =
    merge_subtasks (insert subtask (max (get_or subtask 0 best) value) best) rest

-- One round of the loop over (best_subtasks, best_points).
unfoldable pub ioi_update : Dict ℕ × ℕ → Dict ℕ → ℕ → Dict ℕ × ℕ
unfolding merge_subtasks
ioi_update (best_subtasks, best_points) [] points = (best_subtasks, max best_points points)
ioi_update (best_subtasks, best_points) (e ∷ subtasks) points =
    (merge_subtasks best_subtasks (e ∷ subtasks), best_points)

unfoldable pub ioi_scan : List Submission → Dict ℕ × ℕ → Dict ℕ × ℕ
unfolding ioi_update
ioi_scan [] st = st
ioi_scan (s ∷ subs) st = ioi_scan subs (ioi_update st s.subtask_scores s.points)

-- `if best_subtasks: best_points = sum(best_subtasks.values())`
abbrev pub ioi_points : Dict ℕ → ℕ → ℕ
ioi_points [] best_points = best_points
ioi_points (e ∷ d) best_points = sum_values (e ∷ d)

unfoldable pub ioi_result : List Submission → IoiResult
unfolding ioi_scan
ioi_result subs =
    let (best_subtasks, best_points) = ioi_scan subs ([], 0) in
    let points = ioi_points best_subtasks best_points in
    record {
      points = points;
      attempts = length subs;
      subtasks = best_subtasks;
      solved = ltb 0 points;
    }

pub record IoiState : Type 0 where
  pub total_score : ℕ
  pub problem_results : Dict IoiResult

abbrev pub ioi_add : IoiState → ℕ → IoiResult → IoiState
ioi_add st label r = record {
  total_score = st.total_score + r.points;
  problem_results = insert label r st.problem_results;
}

module _ (subs : List Submission) (p : Participation) (freeze : Option ℕ) where
  abbrev pub ioi_problem : ContestProblem → IoiResult
  ioi_problem cp = ioi_result (submission_queryset subs p cp freeze)

  unfoldable pub ioi_loop : List ContestProblem → IoiState → IoiState
  ioi_loop [] st = st
  ioi_loop (cp ∷ cps) st = ioi_loop cps (ioi_add st cp.label (ioi_problem cp))

  unfoldable pub ioi_calculate : List ContestProblem → Calculation
  ioi_calculate cps =
      let st = ioi_loop cps (record { total_score = 0; problem_results = [] }) in
      record {
        score = st.total_score;
        tiebreaker = 0;
        cumulative_time = 0;
        format_data = ioi_data st.problem_results;
      }
