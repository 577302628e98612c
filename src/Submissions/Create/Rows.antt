-- ===== src/Submissions/Create/Rows.antt =====
-- The rows that a submission adds: itself, its source and its job, with the configuration of the job
-- (apps/submissions/services/submission_service.py).

use judgeloom_core.Base.{
  ℕ, suc, String, Bool, false, ◌&&◌, Option, none, some, [], ◌∷◌, ◌==◌, select, first,
}
use judgeloom_core.Base.Int.{pos}
use judgeloom_core.Models.{
  Submission, SubmissionStatus, SubmissionMode, Package, Manifest, JobConfig, JudgeJob, JobStatus,
  Problem, LanguageLimit, ContestProblem, Participation, submission_status, Store, publish,
}
use judgeloom_core.Submissions.Create.Guards.{Request}

abbrev pub or_default {ℓ} : {A : Type ℓ} → Option A → A → A
or_default none d = d
or_default (some a) d = a

abbrev pub manifest_flag : Option Package → (Manifest → Option Bool) → Bool → Bool
manifest_flag none f d = d
manifest_flag (some k) f d = or_default (f k.manifest) d

abbrev pub limits_for : Problem → Option LanguageLimit → JobConfig → JobConfig
limits_for p none config = config
limits_for p (some l) config = record config {
  time_limit = l.time_limit;
  memory_limit = l.memory_limit;
}

abbrev pub points_of : Option ContestProblem → Option ℕ
points_of none = none
points_of (some cp) = some cp.points

abbrev pub contest_points_of : Store → ℕ → Option Participation → Option ℕ
contest_points_of db problem none = none
contest_points_of db problem (some part) = points_of (
    first (
      select (λ cp. cp.contest_id == part.contest_id && cp.problem_id == problem)
        db.contest_problems))

-- `_build_job_config`
unfoldable pub build_job_config :
    Store
    → Problem
    → ℕ
    → Option Package
    → Option Participation
    → SubmissionMode
    → String
    → String
    → JobConfig
build_job_config db p language pack part mode custom_input expected_output =
    limits_for p (first (select (λ l. l.language_id == language) p.language_limits)) (record {
      time_limit = p.time_limit;
      memory_limit = p.memory_limit;
      short_circuit = manifest_flag pack (λ m. m.short_circuit) p.short_circuit;
      partial_score = manifest_flag pack (λ m. m.partial_score) p.partial_score;
      mode = mode;
      custom_input = custom_input;
      expected_output = expected_output;
      contest_points = contest_points_of db p.id part;
    })

abbrev pub participation_id : Option Participation → Option ℕ
participation_id none = none
participation_id (some p) = some p.id

unfoldable pub new_submission : Request → ℕ → ℕ → Submission
new_submission q k now = record {
  id = k;
  user_id = q.user.id;
  problem_id = q.problem.id;
  language_id = q.language.id;
  contest_participation = participation_id q.participation;
  mode = q.mode;
  custom_input = q.custom_input;
  custom_expected_output = q.expected_output;
  status = SubmissionStatus.queued;
  result = none;
  points = 0;
  time_used = 0;
  memory_used = 0;
  case_total = 0;
  case_passed = 0;
  current_testcase = 0;
  subtask_scores = [];
  error_message = "";
  judged_at = none;
  judged_on = none;
  is_public = false;
  share_token = none;
  created_at = now;
}

-- A job with the defaults of the `JudgeJob` model.
unfoldable pub new_job : ℕ → ℕ → Option Package → ℕ → JobConfig → ℕ → JudgeJob
new_job k submission pack language config now = record {
  id = k;
  submission_id = submission;
  pack = pack;
  language_id = language;
  status = JobStatus.queued;
  priority = pos 0;
  claimed_by = none;
  lease_expires_at = none;
  attempts = 0;
  max_attempts = 3;
  config = config;
  last_error = "";
  claimed_at = none;
  started_at = none;
  finished_at = none;
  created_at = now;
}

-- The rows that a valid request adds: a submission, its source, and its job.
unfoldable pub insert_submission : Request → Option Package → ℕ → Store → Store
unfolding new_submission new_job build_job_config
insert_submission q pack now db =
    let s = new_submission q db.next_id now in
    let config =
      build_job_config db q.problem q.language.id pack q.participation q.mode q.custom_input
        q.expected_output in
    publish (submission_status s.id s.status) (record db {
      next_id = suc (suc db.next_id);
      submissions = s ∷ db.submissions;
      sources = (s.id, q.source_code) ∷ db.sources;
      jobs = new_job (suc db.next_id) s.id pack q.language.id config now ∷ db.jobs;
    })
