-- ===== src/Models/Contests.antt =====
-- apps/contests/models and apps/contests/constants.py, with the results that the formats compute.
use judgeloom_core.Base.{
  ℕ, ◌+◌, ◌-◌, String, Bool, false, not, ◌&&◌, Option, none, some, List, ltb, leb, if◌then◌else◌,
}
use judgeloom_core.Base.Dict.{Dict}

pub data ContestVisibility : Type 0 where
  private organization public : ContestVisibility

pub data ParticipationStatus : Type 0 where
  live spectating virtual : ParticipationStatus

-- The keys of the JSON `format_config`: a missing key takes the schema's default.
pub record FormatConfig : Type 0 where
  pub wrong_penalty_minutes : Option ℕ
  pub penalty_minutes : Option ℕ
  pub tries_per_problem : Option ℕ

pub record Contest : Type 0 where
  pub id : ℕ
  pub start_time : ℕ
  pub end_time : ℕ
  pub time_limit : Option ℕ
  pub visibility : ContestVisibility
  pub organizers : List ℕ
  pub curators : List ℕ
  pub testers : List ℕ
  pub organizations : List ℕ
  pub format_name : String
  pub format_config : FormatConfig
  pub scoreboard_frozen_after : Option ℕ
  pub access_code : String
  pub banned_users : List ℕ
  pub is_visible : Bool
  pub is_rated : Bool
  pub started_at : Option ℕ
  pub ended_at : Option ℕ

pub record ContestProblem : Type 0 where
  pub contest_id : ℕ
  pub problem_id : ℕ
  pub order : ℕ
  pub label : ℕ
  pub points : ℕ
  pub max_submissions : Option ℕ

-- The dictionaries that `get_problem_result` returns, one for each format.
pub record DefaultResult : Type 0 where
  pub points : ℕ
  pub attempts : ℕ
  pub ac_seconds : ℕ
  pub solved : Bool

pub record IcpcResult : Type 0 where
  pub points : ℕ
  pub attempts : ℕ
  pub wrong_attempts : ℕ
  pub solved : Bool
  pub solve_minutes : ℕ
  pub penalty_minutes : ℕ

pub record IoiResult : Type 0 where
  pub points : ℕ
  pub attempts : ℕ
  pub subtasks : Dict ℕ
  pub solved : Bool

pub record AtcoderResult : Type 0 where
  pub points : ℕ
  pub attempts : ℕ
  pub wrong_attempts : ℕ
  pub solved : Bool
  pub ac_minutes : ℕ

pub record EcooResult : Type 0 where
  pub points : ℕ
  pub attempts : ℕ
  pub solved : Bool
  pub tries_allowed : ℕ

-- `format_data`: the results by problem label, with the format's setting; `frozen` is what a
-- frozen scoreboard shows in their place.
pub data FormatData : Type 0 where
  empty : FormatData
  frozen : FormatData
  default_data : Dict DefaultResult → FormatData
  icpc_data : ℕ → Dict IcpcResult → FormatData
  ioi_data : Dict IoiResult → FormatData
  atcoder_data : ℕ → Dict AtcoderResult → FormatData
  ecoo_data : Dict EcooResult → FormatData

-- What `calculate_participation` returns.
pub record Calculation : Type 0 where
  pub score : ℕ
  pub tiebreaker : ℕ
  pub cumulative_time : ℕ
  pub format_data : FormatData

pub record Participation : Type 0 where
  pub id : ℕ
  pub contest_id : ℕ
  pub user_id : ℕ
  pub status : ParticipationStatus
  pub virtual_start : Option ℕ
  pub score : ℕ
  pub tiebreaker : ℕ
  pub cumulative_time : ℕ
  pub is_disqualified : Bool
  pub format_data : FormatData

-- The truth value of a nullable duration: a zero `timedelta` counts as missing.
abbrev pub duration_set : Option ℕ → Option ℕ
duration_set none = none
duration_set (some d) = if ltb 0 d then some d else none

-- `Contest.is_active`, `is_finished`, `is_upcoming`, with `timezone.now()` as an argument
abbrev pub is_active : Contest → ℕ → Bool
is_active c now = leb c.start_time now && ltb now c.end_time

abbrev pub is_finished : Contest → ℕ → Bool
is_finished c now = leb c.end_time now

abbrev pub is_upcoming : Contest → ℕ → Bool
is_upcoming c now = ltb now c.start_time

abbrev pub freeze_active : Contest → ℕ → Option ℕ → Bool
freeze_active c now none = false
freeze_active c now (some after) = leb (c.start_time + after) now && ltb now c.end_time

-- `Contest.is_frozen`
abbrev pub is_frozen : Contest → ℕ → Bool
is_frozen c now = freeze_active c now (duration_set c.scoreboard_frozen_after)

abbrev pub contest_time_remaining : Contest → ℕ → ℕ
contest_time_remaining c now = if not (is_active c now) then 0 else c.end_time - now

abbrev pub virtual_remaining : Contest → ℕ → Option ℕ → Option ℕ → ℕ
virtual_remaining c now none limit = 0
virtual_remaining c now (some start) none = contest_time_remaining c now
virtual_remaining c now (some start) (some limit) = start + limit - now

-- `ContestParticipation.time_remaining`: subtraction stops at 0, as `max(_, timedelta(0))` does
abbrev pub time_remaining : Contest → Participation → ℕ → ℕ
time_remaining c p now = elim p.status [
  | virtual ↦ virtual_remaining c now p.virtual_start (duration_set c.time_limit)
  | _ ↦ 0
]
