-- ===== src/Submissions/Rejudge.antt =====
-- `rejudge_submission` and `rejudge_problem`, and the requeuing of submissions whose judge went
-- offline (apps/judge/services/judge_maintenance_service.py, `cleanup_stale_sessions`).
use judgeloom_core.Base.{
  ℕ, suc, Bool, true, false, not, ◌&&◌, Option, none, some, List, [], ◌∷◌, ◌==◌, is_some, select,
  first, contains, length, Result, ok, ◌>>=◌, ◌>>◌, raise_if, submission_error,
}
use judgeloom_core.Models.{
  Submission, SubmissionStatus, Participation, is_run, JudgeJob, JobStatus, JobConfig, Package,
  Problem, active_package, submission_status, Store, find_submission, find_problem,
  find_participation, save_submission, save_job, publish,
}
use judgeloom_core.Judge.Callbacks.{or_not_found}
use judgeloom_core.Judge.Gateway.{requeued_submission, delete_case_rows}
use judgeloom_core.Submissions.Create.{build_job_config, new_job}

abbrev pub job_of : ℕ → Store → Option JudgeJob
job_of sid db = first (select (λ j. j.submission_id == sid) db.jobs)

-- The package of the old job, or else the active one.
abbrev pub rejudge_package : Option JudgeJob → Problem → Option Package
rejudge_package none p = active_package p
rejudge_package (some j) p = j.pack

abbrev pub reset_job : JobConfig → JudgeJob → JudgeJob
reset_job config j = record j {
  status = JobStatus.queued;
  attempts = 0;
  claimed_by = none;
  lease_expires_at = none;
  claimed_at = none;
  started_at = none;
  finished_at = none;
  last_error = "";
  config = config;
}

abbrev pub participation_row : Submission → Store → Option Participation
participation_row s db = elim s.contest_participation [
  | none ↦ none
  | some k ↦ find_participation k db
]

unfoldable pub config_of : Store → Problem → Option Package → Submission → JobConfig
unfolding build_job_config
config_of db p pack s =
    build_job_config db p s.language_id pack (participation_row s db) s.mode s.custom_input
      s.custom_expected_output

-- The job goes back to the queue; a submission without a job gets one.
abbrev pub queue_job : Option JudgeJob → Option Package → JobConfig → Submission → ℕ → Store → Store
queue_job none pack config s now db = record db {
  next_id = suc db.next_id;
  jobs = reset_job config (new_job db.next_id s.id pack s.language_id config now) ∷ db.jobs;
}
queue_job (some j) pack config s now db = save_job (reset_job config j) db

-- What `rejudge_submission` saves once the package is known.
unfoldable pub rejudged : Submission → Problem → ℕ → Store → Store
unfolding config_of new_job
rejudged s p now db =
    let job = job_of s.id db in
    let pack = rejudge_package job p in
    publish (submission_status s.id SubmissionStatus.queued) (
      queue_job job pack (config_of db p pack s) s now
        (delete_case_rows s.id (save_submission (requeued_submission s) db)))

-- `rejudge_submission`
unfoldable pub rejudge_submission : ℕ → ℕ → Store → Result Store
unfolding rejudged
rejudge_submission sid now db = do
  s ← or_not_found (find_submission sid db) "Submission not found."
  p ← or_not_found (find_problem s.problem_id db) "Problem not found."
  raise_if (not (is_some (rejudge_package (job_of s.id db) p)) && not (is_run s.mode))
      (submission_error "No active test data package is available for this problem.")
  ok (rejudged s p now db)

unfoldable pub rejudge_all : List Submission → ℕ → Store → Result Store
unfolding rejudge_submission
rejudge_all [] now db = ok db
rejudge_all (s ∷ ss) now db = rejudge_submission s.id now db >>= rejudge_all ss now

-- `rejudge_problem`, with the number of submissions queued
unfoldable pub rejudge_problem : ℕ → ℕ → Store → Result (Store × ℕ)
unfolding rejudge_all
rejudge_problem problem now db = do
  let submissions = select (λ s. s.problem_id == problem) db.submissions
  db' ← rejudge_all submissions now db
  ok (db', length submissions)

abbrev pub is_in_flight : SubmissionStatus → Bool
is_in_flight SubmissionStatus.compiling = true
is_in_flight SubmissionStatus.judging = true
is_in_flight _ = false

-- `judged_on__isnull=False, judged_on__online=False`, for the ids of the judges that are offline
abbrev pub judged_offline : List ℕ → Option ℕ → Bool
judged_offline offline none = false
judged_offline offline (some j) = contains j offline

-- `cleanup_stale_sessions`
unfoldable pub cleanup_stale_sessions : List ℕ → ℕ → Store → Result (Store × ℕ)
unfolding rejudge_all
cleanup_stale_sessions offline now db = do
  let stale =
      select (λ s. is_in_flight s.status && judged_offline offline s.judged_on) db.submissions
  db' ← rejudge_all stale now db
  ok (db', length stale)
