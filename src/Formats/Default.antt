-- ===== src/Formats/Default.antt =====
-- apps/contests/formats/default.py: the best points of each problem, summed; the tie breaker is
-- the time of the last accepted submission.
use judgeloom_core.Base.{ℕ, ◌+◌, Option, List, [], ◌∷◌, foldl, length, ltb, max, if◌then◌else◌}
use judgeloom_core.Base.Dict.{Dict, insert}
use judgeloom_core.Models.{
  Submission, Contest, ContestProblem, Participation, DefaultResult, Calculation, default_data,
}
use judgeloom_core.Formats.Common.{submission_queryset, is_accepted, submission_time}

-- The loop of `get_problem_result` over (best_points, ac_seconds).
abbrev pub default_step : Contest → Participation → ℕ × ℕ → Submission → ℕ × ℕ
default_step c p (best_points, ac_seconds) s = (
  if ltb best_points s.points then s.points else best_points,
  if is_accepted s then max ac_seconds (submission_time c p s) else ac_seconds,
)

abbrev pub default_totals : Contest → Participation → List Submission → ℕ × ℕ
default_totals c p subs = foldl (default_step c p) (0, 0) subs

-- What `get_problem_result` makes of the submissions.
unfoldable pub default_result : Contest → Participation → List Submission → DefaultResult
default_result c p subs =
    let (best_points, ac_seconds) = default_totals c p subs in
    record {
      points = best_points;
      attempts = length subs;
      ac_seconds = ac_seconds;
      solved = ltb 0 ac_seconds;
    }

-- The running values of `calculate_participation`.
pub record DefaultState : Type 0 where
  pub total_score : ℕ
  pub last_ac_seconds : ℕ
  pub cumulative_time : ℕ
  pub problem_results : Dict DefaultResult

abbrev pub default_add : DefaultState → ℕ → DefaultResult → DefaultState
default_add st label r =
    let last = max st.last_ac_seconds r.ac_seconds in
    record {
      total_score = st.total_score + r.points;
      last_ac_seconds = if ltb 0 r.ac_seconds then last else st.last_ac_seconds;
      cumulative_time = if ltb 0 r.ac_seconds then last else st.cumulative_time;
      problem_results = insert label r st.problem_results;
    }

module _ (c : Contest) (subs : List Submission) (p : Participation) (freeze : Option ℕ) where
  -- `get_problem_result`
  abbrev pub default_problem : ContestProblem → DefaultResult
  default_problem cp = default_result c p (submission_queryset subs p cp freeze)

  unfoldable pub default_loop : List ContestProblem → DefaultState → DefaultState
  default_loop [] st = st
  default_loop (cp ∷ cps) st = default_loop cps (default_add st cp.label (default_problem cp))

  -- `calculate_participation`
  unfoldable pub default_calculate : List ContestProblem → Calculation
  default_calculate cps =
      let st = default_loop cps (record {
        total_score = 0;
        last_ac_seconds = 0;
        cumulative_time = 0;
        problem_results = [];
      }) in
      record {
        score = st.total_score;
        tiebreaker = st.last_ac_seconds;
        cumulative_time = st.cumulative_time;
        format_data = default_data st.problem_results;
      }
