-- ===== src/Models/Judging.antt =====
-- apps/submissions/constants.py, apps/submissions/models, apps/judge/models and
-- apps/problems/models: submissions, their test-case rows, packages and judge jobs.
use judgeloom_core.Base.{ℕ, String, Bool, true, false, Option, none, some, List, ◌||◌}
use judgeloom_core.Base.Int.{ℤ}
use judgeloom_core.Base.Dict.{Dict}

-- `SubmissionResult`
pub data Verdict : Type 0 where
  ac wa tle mle rte ce ir ole ie partial : Verdict

pub data SubmissionStatus : Type 0 where
  queued compiling judging completed error : SubmissionStatus

pub data SubmissionMode : Type 0 where
  submit run : SubmissionMode

pub data JobStatus : Type 0 where
  queued claimed running succeeded failed expired cancelled : JobStatus

abbrev pub is_ac : Verdict → Bool
is_ac ac = true
is_ac _ = false

abbrev pub is_partial : Verdict → Bool
is_partial partial = true
is_partial _ = false

abbrev pub is_ce : Verdict → Bool
is_ce ce = true
is_ce _ = false

abbrev pub is_ie : Verdict → Bool
is_ie ie = true
is_ie _ = false

abbrev pub is_ce_or_ie : Verdict → Bool
is_ce_or_ie v = is_ce v || is_ie v

abbrev pub is_run : SubmissionMode → Bool
is_run run = true
is_run submit = false

-- A status that a worker reports: a text, which may be none of `SubmissionResult.values`.
pub data Reported : Type 0 where
  known : Verdict → Reported
  unknown : Reported

-- `if status not in SubmissionResult.values: status = SubmissionResult.IR`
abbrev pub normalize : Reported → Verdict
normalize (known v) = v
normalize unknown = ir

pub record Submission : Type 0 where
  pub id : ℕ
  pub user_id : ℕ
  pub problem_id : ℕ
  pub language_id : ℕ
  pub contest_participation : Option ℕ
  pub mode : SubmissionMode
  pub custom_input : String
  pub custom_expected_output : String
  pub status : SubmissionStatus
  pub result : Option Verdict
  pub points : ℕ
  pub time_used : ℕ
  pub memory_used : ℕ
  pub case_total : ℕ
  pub case_passed : ℕ
  pub current_testcase : ℕ
  pub subtask_scores : Dict ℕ
  pub error_message : String
  pub judged_at : Option ℕ
  pub judged_on : Option ℕ
  pub is_public : Bool
  pub share_token : Option ℕ
  pub created_at : ℕ

-- `SubmissionTestCase`: a reported points value may be negative.
pub record CaseRow : Type 0 where
  pub submission_id : ℕ
  pub case_number : ℕ
  pub status : Verdict
  pub time_used : ℕ
  pub memory_used : ℕ
  pub points : ℤ
  pub total_points : ℤ
  pub group : ℕ
  pub feedback : String
  pub output : String

-- The `mode` of a group: any text but "min" sums.
pub data GroupMode : Type 0 where
  sum minimum : GroupMode

pub record Group : Type 0 where
  pub id : ℕ
  pub points : ℕ
  pub mode : GroupMode

pub record ManifestCase : Type 0 where
  pub points : ℕ
  pub group : ℕ

pub record Manifest : Type 0 where
  pub cases : List ManifestCase
  pub groups : List Group
  pub partial_score : Option Bool
  pub short_circuit : Option Bool

pub record Package : Type 0 where
  pub id : ℕ
  pub problem_id : ℕ
  pub sha256 : String
  pub is_active : Bool
  pub manifest : Manifest

pub record JobConfig : Type 0 where
  pub time_limit : ℕ
  pub memory_limit : ℕ
  pub short_circuit : Bool
  pub partial_score : Bool
  pub mode : SubmissionMode
  pub custom_input : String
  pub expected_output : String
  pub contest_points : Option ℕ

pub record JudgeJob : Type 0 where
  pub id : ℕ
  pub submission_id : ℕ
  pub pack : Option Package
  pub language_id : ℕ
  pub status : JobStatus
  pub priority : ℤ
  pub claimed_by : Option ℕ
  pub lease_expires_at : Option ℕ
  pub attempts : ℕ
  pub max_attempts : ℕ
  pub config : JobConfig
  pub last_error : String
  pub claimed_at : Option ℕ
  pub started_at : Option ℕ
  pub finished_at : Option ℕ
  pub created_at : ℕ

abbrev pub is_queued : JobStatus → Bool
is_queued JobStatus.queued = true
is_queued _ = false

-- `status in {CLAIMED, RUNNING}`
abbrev pub is_active_status : JobStatus → Bool
is_active_status claimed = true
is_active_status running = true
is_active_status _ = false

abbrev pub is_claimed : JobStatus → Bool
is_claimed claimed = true
is_claimed _ = false

abbrev pub is_running : JobStatus → Bool
is_running running = true
is_running _ = false

abbrev pub is_succeeded : JobStatus → Bool
is_succeeded succeeded = true
is_succeeded _ = false

abbrev pub is_failed : JobStatus → Bool
is_failed failed = true
is_failed _ = false

-- `(manifest or {}).get("cases") or []` of a job's package
abbrev pub cases_of : Option Package → List ManifestCase
cases_of none = List.[]
cases_of (some p) = p.manifest.cases
