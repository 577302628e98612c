-- ===== src/Submissions/Reset.antt =====
-- What a rejudged submission looks like (`rejudge_submission`).
use judgeloom_core.Base.{
  ℕ, [], ◌≡◌, refl, sym, ap, ◌∙◌, subst, true, false, not, ◌&&◌, Option, none, some, arith, ◌==◌,
  is_some, select, select-passes, first, first-passes, first-update_where, first-update_all, ==_iff,
  All, All-weaken, ok, ◌>>◌, >>=-eq-ok, >>-eq-ok, ok-injective, raise_if, submission_error,
}
use judgeloom_core.Models.{
  JudgeJob, JobConfig, Package, Submission, Problem, is_queued, is_run, Store, Event,
  submission_status, SubmissionStatus, publish, find_submission, find_problem, save_submission,
}
use judgeloom_core.Judge.Gateway.{requeued_submission, delete_case_rows}
use judgeloom_core.Judge.Callbacks.{or_not_found, or_not_found-eq-ok}
use judgeloom_core.Submissions.Create.{new_job}
use judgeloom_core.Submissions.Rejudge.{
  job_of, rejudge_package, reset_job, config_of, queue_job, rejudged, rejudge_submission,
}

-- A row of the submission, with nothing of a judgement in it.
pub record IsCleared (s row : Submission) : Type 0 where
  pub same_id : row.id ≡ s.id
  pub same_user : row.user_id ≡ s.user_id
  pub same_problem : row.problem_id ≡ s.problem_id
  pub same_time : row.created_at ≡ s.created_at
  pub queued : row.status ≡ SubmissionStatus.queued
  pub no_result : row.result ≡ none
  pub no_points : row.points ≡ 0
  pub no_time : row.time_used ≡ 0
  pub no_memory : row.memory_used ≡ 0
  pub no_case : row.case_total ≡ 0
  pub none_passed : row.case_passed ≡ 0
  pub at_start : row.current_testcase ≡ 0
  pub no_subtasks : row.subtask_scores ≡ []
  pub no_message : row.error_message ≡ ""
  pub not_judged : row.judged_at ≡ none
  pub no_judge : row.judged_on ≡ none

requeued-IsCleared : (s : Submission) → IsCleared s (requeued_submission s)
requeued-IsCleared s = record {
  same_id = refl;
  same_user = refl;
  same_problem = refl;
  same_time = refl;
  queued = refl;
  no_result = refl;
  no_points = refl;
  no_time = refl;
  no_memory = refl;
  no_case = refl;
  none_passed = refl;
  at_start = refl;
  no_subtasks = refl;
  no_message = refl;
  not_judged = refl;
  no_judge = refl;
}

-- The submission is as new, none of its rows is left, and its job waits with no attempt used.
pub record IsReset (s : Submission) (db : Store) : Type 0 where
  pub row : Submission
  pub row_found : find_submission s.id db ≡ some row
  pub cleared : IsCleared s row
  pub no_rows : All (λ r. (r.submission_id == s.id) ≡ false) db.case_rows
  pub job : JudgeJob
  pub job_found : job_of s.id db ≡ some job
  pub queued : is_queued job.status ≡ true
  pub unused : job.attempts ≡ 0
  pub free : job.claimed_by ≡ none

find_submission-requeued :
    (sid : ℕ) (s : Submission) (db : Store)
    → find_submission sid db ≡ some s
    → find_submission s.id (save_submission (requeued_submission s) db)
      ≡ some (requeued_submission s)
find_submission-requeued sid s db found =
    let here : s.id ≡ sid =
      (==_iff s.id sid).0 (first-passes (λ r. r.id == sid) db.submissions found) in
    first-update_where (λ r. r.id == s.id) (requeued_submission s) db.submissions (ground arith)
      (subst (λ k. find_submission k db ≡ some s) (sym here) found)

-- The rows that are left when those of a submission are deleted.
deleted_rows :
    (sid : ℕ) (db : Store)
    → All (λ r. (r.submission_id == sid) ≡ false) (delete_case_rows sid db).case_rows
deleted_rows sid db =
    All-weaken (λ r h. ground arith) (delete_case_rows sid db).case_rows
      (select-passes (λ r. not (r.submission_id == sid)) db.case_rows)

queue_job-IsReset :
    (o : Option JudgeJob) (pack : Option Package) (config : JobConfig) (s : Submission) (now : ℕ)
    (base db : Store)
    → job_of s.id base ≡ o
    → db.jobs ≡ base.jobs
    → find_submission s.id db ≡ some (requeued_submission s)
    → All (λ r. (r.submission_id == s.id) ≡ false) db.case_rows
    → IsReset s (queue_job o pack config s now db)
unfolding new_job
queue_job-IsReset none pack config s now base db known same row rows = record {
  row = requeued_submission s;
  row_found = row;
  cleared = requeued-IsCleared s;
  no_rows = rows;
  job = reset_job config (new_job db.next_id s.id pack s.language_id config now);
  job_found = ground arith;
  queued = refl;
  unused = refl;
  free = refl;
}
queue_job-IsReset (some j) pack config s now base db known same row rows =
    let own : (j.submission_id == s.id) ≡ true =
      first-passes (λ j. j.submission_id == s.id) base.jobs known in
    record {
      row = requeued_submission s;
      row_found = row;
      cleared = requeued-IsCleared s;
      no_rows = rows;
      job = reset_job config j;
      job_found =
          first-update_all (λ j. j.submission_id == s.id) (λ r. r.id == j.id) (reset_job config j)
            db.jobs own (ground arith)
            (ap (λ js. first (select (λ j. j.submission_id == s.id) js)) same ∙ known);
      queued = refl;
      unused = refl;
      free = refl;
    }

publish-IsReset :
    (s : Submission) (e : Event) (db : Store) → IsReset s db → IsReset s (publish e db)
publish-IsReset s e db h = record {
  row = h.row;
  row_found = h.row_found;
  cleared = h.cleared;
  no_rows = h.no_rows;
  job = h.job;
  job_found = h.job_found;
  queued = h.queued;
  unused = h.unused;
  free = h.free;
}

rejudged-IsReset :
    (sid : ℕ) (s : Submission) (p : Problem) (now : ℕ) (db : Store)
    → find_submission sid db ≡ some s
    → IsReset s (rejudged s p now db)
unfolding rejudged
rejudged-IsReset sid s p now db found =
    let pack = rejudge_package (job_of s.id db) p in
    publish-IsReset s (submission_status s.id SubmissionStatus.queued) _ (
      queue_job-IsReset (job_of s.id db) pack (config_of db p pack s) s now db
        (delete_case_rows s.id (save_submission (requeued_submission s) db)) refl refl
        (find_submission-requeued sid s db found)
        (deleted_rows s.id (save_submission (requeued_submission s) db)))

-- A successful rejudge leaves the submission as new: queued, with no result, points, times, counts,
-- message or judge, and no case row; and its judge job waits with no attempt used and no judge.
pub rejudge_submission-IsReset :
    (sid now : ℕ) (db new : Store)
    → rejudge_submission sid now db ≡ ok new
    → (s : Submission) × (find_submission sid db ≡ some s) × IsReset s new
unfolding rejudge_submission
rejudge_submission-IsReset sid now db new e =
    let (s, found, with_s) =
      >>=-eq-ok (or_not_found (find_submission sid db) "Submission not found.") _ e in
    let (p, _, with_p) =
      >>=-eq-ok (or_not_found (find_problem s.problem_id db) "Problem not found.")
        (λ p.
          raise_if (not (is_some (rejudge_package (job_of s.id db) p)) && not (is_run s.mode))
            (submission_error "No active test data package is available for this problem.")
          >> ok (rejudged s p now db))
        with_s in
    let (_, done) =
      >>-eq-ok
        (raise_if (not (is_some (rejudge_package (job_of s.id db) p)) && not (is_run s.mode))
          (submission_error "No active test data package is available for this problem."))
        (ok (rejudged s p now db)) with_p in
    let row = or_not_found-eq-ok (find_submission sid db) "Submission not found." found in
    (s, row, subst (IsReset s) (ok-injective _ _ done) (rejudged-IsReset sid s p now db row))
