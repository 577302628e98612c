-- ===== src/Formats/Atcoder.antt =====
-- apps/contests/formats/atcoder.py: the points of the solved problems; the penalty is the minute
-- of the last first acceptance plus a charge for each wrong attempt before one.
use judgeloom_core.Base.{
  ℕ, suc, ◌+◌, ◌*◌, ◌/◌, true, false, Option, none, some, List, [], ◌∷◌, is_some, max,
  if◌then◌else◌,
}
use judgeloom_core.Base.Dict.{Dict, insert}
use judgeloom_core.Models.{
  Submission, Contest, ContestProblem, Participation, AtcoderResult, Calculation, atcoder_data,
  minute, whole,
}
use judgeloom_core.Formats.Common.{submission_queryset, is_accepted, submission_time}
use judgeloom_core.Formats.Icpc.{minutes_of}

-- `AtCoderFormatConfig.penalty_minutes`
abbrev pub attempt_penalty : Option ℕ → ℕ
attempt_penalty none = 5
attempt_penalty (some n) = n

module _ (c : Contest) (p : Participation) where
  unfoldable pub atcoder_scan : List Submission → ℕ → ℕ × Option ℕ
  atcoder_scan [] wrong = (wrong, none)
  atcoder_scan (s ∷ subs) wrong = elim (is_accepted s) [
    | true ↦ (wrong, some (submission_time c p s / minute))
    | false ↦ atcoder_scan subs (suc wrong)
  ]

abbrev pub atcoder_payload : ℕ → ℕ × Option ℕ → AtcoderResult
atcoder_payload points (wrong, first_ac) =
    let solved = is_some first_ac in
    record {
      points = if solved then points else 0;
      attempts = wrong + (if solved then 1 else 0);
      wrong_attempts = wrong;
      solved = solved;
      ac_minutes = minutes_of first_ac;
    }

pub record AtcoderState : Type 0 where
  pub total_points : ℕ
  pub total_wrong : ℕ
  pub last_ac_minutes : ℕ
  pub per_problem : Dict AtcoderResult

abbrev pub atcoder_add : AtcoderState → ContestProblem → AtcoderResult → AtcoderState
atcoder_add st cp r =
    let noted = record st { per_problem = insert cp.label r st.per_problem } in
    if r.solved
    then record noted {
      total_points = st.total_points + cp.points;
      total_wrong = st.total_wrong + r.wrong_attempts;
      last_ac_minutes = max st.last_ac_minutes r.ac_minutes;
    }
    else noted

module _ (c : Contest) (subs : List Submission) (p : Participation) (freeze : Option ℕ) where
  abbrev pub atcoder_problem : ContestProblem → AtcoderResult
  atcoder_problem cp =
      atcoder_payload cp.points (atcoder_scan c p (submission_queryset subs p cp freeze) 0)

  unfoldable pub atcoder_loop : List ContestProblem → AtcoderState → AtcoderState
  atcoder_loop [] st = st
  atcoder_loop (cp ∷ cps) st = atcoder_loop cps (atcoder_add st cp (atcoder_problem cp))

  unfoldable pub atcoder_calculate : List ContestProblem → Calculation
  atcoder_calculate cps =
      let st =
        atcoder_loop cps
          (record { total_points = 0; total_wrong = 0; last_ac_minutes = 0; per_problem = [] }) in
      let fee = attempt_penalty c.format_config.penalty_minutes in
      let penalty = st.last_ac_minutes + st.total_wrong * fee in
      record {
        score = st.total_points;
        tiebreaker = whole penalty;
        cumulative_time = penalty * minute;
        format_data = atcoder_data fee st.per_problem;
      }
