-- ===== src/Formats/Ecoo.antt =====
-- apps/contests/formats/ecoo.py: the number of problems solved within a fixed number of tries.
use judgeloom_core.Base.{
  ℕ, zero, suc, ◌+◌, Option, none, some, List, [], ◌∷◌, any, take, length, if◌then◌else◌, Result,
  ok, err, ◌>>=◌, validation_error,
}
use judgeloom_core.Base.Dict.{Dict, insert}
use judgeloom_core.Models.{
  Submission, Contest, ContestProblem, Participation, EcooResult, Calculation, ecoo_data, whole,
}
use judgeloom_core.Formats.Common.{submission_queryset, is_accepted}

-- `ECOOFormatConfig.tries_per_problem`: at least 1, or the configuration is refused.
abbrev pub tries_per_problem : Option ℕ → Result ℕ
tries_per_problem none = ok 3
tries_per_problem (some zero) = err (validation_error "tries_per_problem")
tries_per_problem (some (suc n)) = ok (suc n)

unfoldable pub ecoo_result : ℕ → List Submission → EcooResult
ecoo_result allowed subs =
    let tries = take allowed subs in
    let solved = any is_accepted tries in
    record {
      points = if solved then whole 1 else 0;
      attempts = length tries;
      solved = solved;
      tries_allowed = allowed;
    }

pub record EcooState : Type 0 where
  pub total_solved : ℕ
  pub per_problem : Dict EcooResult

abbrev pub ecoo_add : EcooState → ℕ → EcooResult → EcooState
ecoo_add st label r = record {
  total_solved = st.total_solved + (if r.solved then 1 else 0);
  per_problem = insert label r st.per_problem;
}

module _ (allowed : ℕ) (subs : List Submission) (p : Participation) (freeze : Option ℕ) where
  abbrev pub ecoo_problem : ContestProblem → EcooResult
  ecoo_problem cp = ecoo_result allowed (submission_queryset subs p cp freeze)

  unfoldable pub ecoo_loop : List ContestProblem → EcooState → EcooState
  ecoo_loop [] st = st
  ecoo_loop (cp ∷ cps) st = ecoo_loop cps (ecoo_add st cp.label (ecoo_problem cp))

abbrev pub ecoo_summary : EcooState → Calculation
ecoo_summary st = record {
  score = whole st.total_solved;
  tiebreaker = 0;
  cumulative_time = 0;
  format_data = ecoo_data st.per_problem;
}

module _ (c : Contest) (subs : List Submission) (p : Participation) (freeze : Option ℕ) where
  -- The configuration is read for each problem, so it is not refused when there is none.
  unfoldable pub ecoo_calculate : List ContestProblem → Result Calculation
  unfolding ecoo_loop
  ecoo_calculate [] = ok (ecoo_summary (record { total_solved = 0; per_problem = [] }))
  ecoo_calculate (cp ∷ cps) = do
    allowed ← tries_per_problem c.format_config.tries_per_problem
    ok (
        ecoo_summary (
          ecoo_loop allowed subs p freeze (cp ∷ cps)
            (record { total_solved = 0; per_problem = [] })))
