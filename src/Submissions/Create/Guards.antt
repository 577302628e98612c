-- ===== src/Submissions/Create/Guards.antt =====
-- The checks of a request for a submission (apps/submissions/services/submission_service.py,
-- `create_submission`). `settings` holds the values that Django's settings give.
use Prim.Native.String.{len}
use judgeloom_core.Base.{
  ℕ, ◌-◌, String, Bool, true, false, not, ◌&&◌, ◌||◌, Option, none, some, List, [], ◌∷◌, ltb, leb,
  ◌==◌, if◌then◌else◌, any, contains, count_where, Result, ◌>>◌, raise_if, submission_error,
  validation_error,
}
use judgeloom_core.Models.{
  User, Submission, SubmissionMode, is_run, Problem, Language, is_accessible_by, Contest,
  Participation, ParticipationStatus, is_active, Store, find_contest, minute,
}

pub record Settings : Type 0 where
  pub max_submission_size : ℕ
  pub submission_rate_limit_per_minute : ℕ
  pub run_rate_limit_per_minute : ℕ

abbrev pub max_run_input_bytes : ℕ
max_run_input_bytes = 65536

-- The arguments of one request.
pub record Request : Type 0 where
  pub user : User
  pub problem : Problem
  pub language : Language
  pub source_code : String
  pub participation : Option Participation
  pub mode : SubmissionMode
  pub custom_input : String
  pub expected_output : String

-- `validate_source_code_size`
abbrev pub validate_source_code_size : Settings → String → Result (Unit {0})
validate_source_code_size settings source =
    raise_if (ltb settings.max_submission_size (len source))
      (validation_error "Source code size exceeds the maximum allowed size.")

abbrev pub validate_run_inputs : Request → Result (Unit {0})
validate_run_inputs q =
    if is_run q.mode
    then (raise_if (ltb max_run_input_bytes (len q.custom_input))
          (submission_error "Custom input exceeds the maximum allowed size.")
        >> raise_if (ltb max_run_input_bytes (len q.expected_output))
            (submission_error "Expected output exceeds the maximum allowed size."))
    else raise_if (ltb 0 (len q.custom_input) || ltb 0 (len q.expected_output))
        (submission_error "Custom input and expected output are only valid for runs.")

abbrev pub is_live : ParticipationStatus → Bool
is_live ParticipationStatus.live = true
is_live _ = false

abbrev pub holds_problem : Store → ℕ → Problem → Bool
holds_problem db contest p =
    any (λ cp. cp.contest_id == contest && cp.problem_id == p.id) db.contest_problems

abbrev pub is_open_contest : Option Contest → ℕ → Bool
is_open_contest none now = false
is_open_contest (some c) now = c.is_visible && is_active c now

-- The query of `_validate_problem_access` over the user's participations.
abbrev pub gives_access : Store → ℕ → User → Problem → Participation → Bool
gives_access db now u p part =
    part.user_id == u.id
    && is_live part.status
    && is_open_contest (find_contest part.contest_id db) now
    && holds_problem db part.contest_id p

-- `_validate_problem_access`
abbrev pub validate_problem_access : Store → ℕ → User → Problem → Result (Unit {0})
validate_problem_access db now u p =
    raise_if (not (is_accessible_by p u || any (gives_access db now u p) db.participations))
      (submission_error "You do not have access to this problem.")

abbrev pub is_allowed : List ℕ → ℕ → Bool
is_allowed [] language = true
is_allowed (l ∷ ls) language = contains language (l ∷ ls)

-- `_validate_language`: an empty relation allows every language.
abbrev pub validate_language : Problem → Language → Result (Unit {0})
validate_language p l = do
  raise_if (not l.is_enabled) (submission_error "Selected language is disabled.")
  raise_if (not (is_allowed p.languages_allowed l.id))
      (submission_error "Selected language is not allowed for this problem.")

abbrev pub same_mode : SubmissionMode → SubmissionMode → Bool
same_mode a b = (is_run a && is_run b) || (not (is_run a) && not (is_run b))

abbrev pub is_recent : ℕ → ℕ → SubmissionMode → Submission → Bool
is_recent now user mode s =
    s.user_id == user && same_mode s.mode mode && leb (now - minute) s.created_at

unfoldable pub recent_count : Store → ℕ → ℕ → SubmissionMode → ℕ
recent_count db now user mode = count_where (is_recent now user mode) db.submissions

abbrev pub rate_limit : Settings → SubmissionMode → ℕ
rate_limit settings SubmissionMode.run = settings.run_rate_limit_per_minute
rate_limit settings SubmissionMode.submit = settings.submission_rate_limit_per_minute

abbrev pub rate_message : SubmissionMode → String
rate_message SubmissionMode.run = "Run rate limit exceeded. Try again shortly."
rate_message SubmissionMode.submit = "Submission rate limit exceeded. Try again shortly."

-- `_check_rate_limit` and `_check_run_rate_limit`
abbrev pub check_rate_limit : Settings → Store → ℕ → User → SubmissionMode → Result (Unit {0})
check_rate_limit settings db now u mode =
    raise_if (not u.is_staff && leb (rate_limit settings mode) (recent_count db now u.id mode))
      (submission_error (rate_message mode))
