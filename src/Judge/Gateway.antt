-- ===== src/Judge/Gateway.antt =====
-- apps/judge/services/judge_gateway_service.py: stale jobs go back to the queue or fail, and a
-- worker claims the first job that it can run. `locked` lists the jobs that other transactions
-- hold, which `skip_locked` passes over.
use judgeloom_core.Base.{
  ℕ, suc, Bool, true, false, not, ◌&&◌, Option, none, some, List, [], ◌∷◌, leb, ◌==◌, if◌then◌else◌,
  select, first, update_where, contains, length,
}
use judgeloom_core.Base.Int.{ltb_ℤ}
use judgeloom_core.Base.Sort.{sort_by}
use judgeloom_core.Models.{
  Submission, SubmissionStatus, ie, JudgeJob, JobStatus, claimed, failed, is_queued,
  submission_status, submission_finished, Store, save_job, publish,
}
use judgeloom_core.Judge.Leases.{is_stale, lease_until}

-- What `expire_stale_jobs` writes to the submission of a job that goes back to the queue.
abbrev pub requeued_submission : Submission → Submission
requeued_submission s = record s {
  status = SubmissionStatus.queued;
  result = none;
  points = 0;
  time_used = 0;
  memory_used = 0;
  case_total = 0;
  case_passed = 0;
  current_testcase = 0;
  subtask_scores = [];
  error_message = "";
  judged_at = none;
  judged_on = none;
}

-- What it writes to the submission of a job that has no attempt left.
abbrev pub expired_submission : ℕ → Submission → Submission
expired_submission now s = record s {
  status = SubmissionStatus.error;
  result = some ie;
  points = 0;
  time_used = 0;
  memory_used = 0;
  case_total = 0;
  case_passed = 0;
  current_testcase = 0;
  subtask_scores = [];
  error_message = "Judge lease expired after maximum attempts.";
  judged_at = some now;
  judged_on = none;
}

abbrev pub requeued_job : JudgeJob → JudgeJob
requeued_job j = record j {
  status = JobStatus.queued;
  claimed_by = none;
  claimed_at = none;
  started_at = none;
  finished_at = none;
  lease_expires_at = none;
  last_error = "Lease expired; job requeued.";
}

abbrev pub expired_job : ℕ → JudgeJob → JudgeJob
expired_job now j = record j {
  status = failed;
  finished_at = some now;
  lease_expires_at = none;
  last_error = "Lease expired after maximum attempts.";
}

-- `attempts >= max_attempts`
abbrev pub is_exhausted : JudgeJob → Bool
is_exhausted j = leb j.max_attempts j.attempts

abbrev pub delete_case_rows : ℕ → Store → Store
delete_case_rows sid db = record db {
  case_rows = select (λ r. not (r.submission_id == sid)) db.case_rows;
}

abbrev pub update_submission : ℕ → (Submission → Submission) → Store → Store
update_submission sid f db = record db {
  submissions = update_where (λ s. s.id == sid) f db.submissions;
}

-- The body of the loop over the stale jobs.
unfoldable pub expire_job : ℕ → JudgeJob → Store → Store
expire_job now j db =
    let cleared = delete_case_rows j.submission_id db in
    if is_exhausted j
    then publish (submission_finished j.submission_id SubmissionStatus.error (some ie)) (
        update_submission j.submission_id (expired_submission now)
          (save_job (expired_job now j) cleared))
    else publish (submission_status j.submission_id SubmissionStatus.queued)
        (update_submission j.submission_id requeued_submission (save_job (requeued_job j) cleared))

unfoldable pub expire_jobs : ℕ → List JudgeJob → Store → Store
unfolding expire_job
expire_jobs now [] db = db
expire_jobs now (j ∷ js) db = expire_jobs now js (expire_job now j db)

unfoldable pub stale_jobs : List ℕ → ℕ → Store → List JudgeJob
stale_jobs locked now db = select (λ j. is_stale now j && not (contains j.id locked)) db.jobs

-- `expire_stale_jobs`, with the number of jobs that it changed
unfoldable pub expire_stale_jobs : List ℕ → ℕ → Store → Store × ℕ
unfolding expire_jobs stale_jobs
expire_stale_jobs locked now db =
    let stale = stale_jobs locked now db in (expire_jobs now stale db, length stale)

-- `order_by("-priority", "created_at")`
abbrev pub queue_order : JudgeJob → JudgeJob → Bool
queue_order a b =
    if ltb_ℤ b.priority a.priority
    then true
    else (if ltb_ℤ a.priority b.priority then false else leb a.created_at b.created_at)

abbrev pub is_eligible : List ℕ → List ℕ → JudgeJob → Bool
is_eligible locked languages j =
    is_queued j.status && contains j.language_id languages && not (contains j.id locked)

unfoldable pub next_job : List ℕ → List ℕ → Store → Option JudgeJob
next_job locked languages db =
    first (sort_by queue_order (select (is_eligible locked languages) db.jobs))

abbrev pub claimed_job : ℕ → ℕ → JudgeJob → JudgeJob
claimed_job judge now j = record j {
  status = claimed;
  claimed_by = some judge;
  claimed_at = some now;
  attempts = suc j.attempts;
  lease_expires_at = lease_until now;
}

abbrev pub claim : ℕ → ℕ → Option JudgeJob → Store → Store × Option JudgeJob
claim judge now none db = (db, none)
claim judge now (some j) db = let taken = claimed_job judge now j in (save_job taken db, some taken)

-- `claim_job`
unfoldable pub claim_job : List ℕ → ℕ → List ℕ → ℕ → Store → Store × Option JudgeJob
unfolding expire_stale_jobs next_job
claim_job locked judge languages now db =
    let (fresh, _) = expire_stale_jobs locked now db in
    claim judge now (next_job locked languages fresh) fresh
