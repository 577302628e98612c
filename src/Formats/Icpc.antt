-- ===== src/Formats/Icpc.antt =====
-- apps/contests/formats/icpc.py: the number of problems solved, with a penalty in minutes.
use judgeloom_core.Base.{
  ℕ, suc, ◌+◌, ◌*◌, ◌/◌, Bool, true, false, Option, none, some, List, [], ◌∷◌, is_some,
  if◌then◌else◌,
}
use judgeloom_core.Base.Dict.{Dict, insert}
use judgeloom_core.Models.{
  Submission, Verdict, is_ce_or_ie, Contest, ContestProblem, Participation, IcpcResult, Calculation,
  icpc_data, minute, whole,
}
use judgeloom_core.Formats.Common.{submission_queryset, is_accepted, submission_time}

-- `ICPCFormatConfig.wrong_penalty_minutes`, for a contest that does not set a negative one, which
-- the code accepts too
abbrev pub wrong_penalty : Option ℕ → ℕ
wrong_penalty none = 20
wrong_penalty (some n) = n

abbrev pub verdict_skipped : Option Verdict → Bool
verdict_skipped none = false
verdict_skipped (some v) = is_ce_or_ie v

-- `submission.result in {"CE", "IE"}`
abbrev pub is_skipped : Submission → Bool
is_skipped s = verdict_skipped s.result

module _ (c : Contest) (p : Participation) where
  -- The loop of `get_problem_result`: the wrong attempts, and the minute of the first accepted
  -- submission, at which it stops.
  unfoldable pub icpc_scan : List Submission → ℕ → ℕ × Option ℕ
  icpc_scan [] wrong = (wrong, none)
  icpc_scan (s ∷ subs) wrong = elim (is_skipped s) [
    | true ↦ icpc_scan subs wrong
    | false ↦ elim (is_accepted s) [
      | true ↦ (wrong, some (submission_time c p s / minute))
      | false ↦ icpc_scan subs (suc wrong)
    ]
  ]

abbrev pub minutes_of : Option ℕ → ℕ
minutes_of none = 0
minutes_of (some m) = m

-- The dictionary that `get_problem_result` builds from what the loop found.
abbrev pub icpc_payload : ℕ → ℕ × Option ℕ → IcpcResult
icpc_payload penalty (wrong, first_ac) =
    let solved = is_some first_ac in
    record {
      points = if solved then whole 1 else 0;
      attempts = wrong + (if solved then 1 else 0);
      wrong_attempts = wrong;
      solved = solved;
      solve_minutes = minutes_of first_ac;
      penalty_minutes = if solved then minutes_of first_ac + wrong * penalty else 0;
    }

unfoldable pub icpc_result : Contest → Participation → List Submission → IcpcResult
icpc_result c p subs =
    icpc_payload (wrong_penalty c.format_config.wrong_penalty_minutes) (icpc_scan c p subs 0)

pub record IcpcState : Type 0 where
  pub solved : ℕ
  pub penalty_minutes : ℕ
  pub per_problem : Dict IcpcResult

abbrev pub icpc_add : IcpcState → ℕ → IcpcResult → IcpcState
icpc_add st label r = record {
  solved = st.solved + (if r.solved then 1 else 0);
  penalty_minutes = st.penalty_minutes + r.penalty_minutes;
  per_problem = insert label r st.per_problem;
}

module _ (c : Contest) (subs : List Submission) (p : Participation) (freeze : Option ℕ) where
  abbrev pub icpc_problem : ContestProblem → IcpcResult
  icpc_problem cp = icpc_result c p (submission_queryset subs p cp freeze)

  unfoldable pub icpc_loop : List ContestProblem → IcpcState → IcpcState
  icpc_loop [] st = st
  icpc_loop (cp ∷ cps) st = icpc_loop cps (icpc_add st cp.label (icpc_problem cp))

  unfoldable pub icpc_calculate : List ContestProblem → Calculation
  icpc_calculate cps =
      let st = icpc_loop cps (record { solved = 0; penalty_minutes = 0; per_problem = [] }) in
      record {
        score = whole st.solved;
        tiebreaker = whole st.penalty_minutes;
        cumulative_time = st.penalty_minutes * minute;
        format_data =
            icpc_data (wrong_penalty c.format_config.wrong_penalty_minutes) st.per_problem;
      }
