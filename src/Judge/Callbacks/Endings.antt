-- ===== src/Judge/Callbacks/Endings.antt =====
-- `finish` and `fail` (apps/judge/services/judge_result_service.py).
use judgeloom_core.Base.{ℕ, none, some, [], if◌then◌else◌, String, Result, ok, ◌>>=◌, ◌>>◌}
use judgeloom_core.Models.{
  Submission, SubmissionStatus, Verdict, Reported, known, ce, ie, JudgeJob, succeeded, failed,
  is_succeeded, is_failed, submission_finished, Store, save_job, save_submission, publish,
}
use judgeloom_core.Judge.Leases.{assert_owned}
use judgeloom_core.Judge.Callbacks.Locks.{lock_job, submission_of, other_judge}
use judgeloom_core.Judge.Callbacks.Grading.{ordered_rows, graded, judged, refresh_contest_score}

abbrev pub finished_job : ℕ → JudgeJob → JudgeJob
finished_job now j = record j {
  status = succeeded;
  finished_at = some now;
  lease_expires_at = none;
  last_error = "";
}

-- What `finish` saves: the submission, the standing it counts for, and the job.
unfoldable pub finished_store : ℕ → ℕ → String → JudgeJob → Store → Submission → Store
unfolding refresh_contest_score
finished_store judge now message j db graded_s =
    let s = judged judge now message graded_s in
    publish (submission_finished s.id s.status s.result)
      (save_job (finished_job now j) (refresh_contest_score s (save_submission s db)))

-- `finish` of a job that is locked: a repeated call of the same judge changes nothing.
unfoldable pub finish_locked : ℕ → ℕ → String → JudgeJob → Store → Result Store
unfolding graded finished_store ordered_rows
finish_locked judge now message j db = do
  s ← submission_of j db
  if is_succeeded j.status
      then other_judge j judge >> ok db
      else (assert_owned j judge now >> do
        graded_s ← graded j.pack (ordered_rows s.id db) s
        ok (finished_store judge now message j db graded_s))

-- `JudgeResultService.finish`
unfoldable pub finish : ℕ → ℕ → ℕ → String → Store → Result Store
unfolding finish_locked
finish job judge now message db = do j ← lock_job job db; finish_locked judge now message j db

-- The verdict of a failed job: CE if that is reported, or else IE.
abbrev pub failure_verdict : Reported → Verdict
failure_verdict (known ce) = ce
failure_verdict _ = ie

abbrev pub failed_submission : Reported → Submission → Submission
failed_submission reported s = record s {
  status = SubmissionStatus.error;
  result = some (failure_verdict reported);
  points = 0;
  time_used = 0;
  memory_used = 0;
  case_total = 0;
  case_passed = 0;
  current_testcase = 0;
  subtask_scores = [];
}

abbrev pub failed_job : ℕ → String → JudgeJob → JudgeJob
failed_job now message j = record j {
  status = failed;
  finished_at = some now;
  lease_expires_at = none;
  last_error = message;
}

-- What `fail` saves.
unfoldable pub failed_store : ℕ → ℕ → String → JudgeJob → Store → Submission → Store
unfolding refresh_contest_score
failed_store judge now message j db marked =
    let s = judged judge now message marked in
    publish (submission_finished s.id s.status s.result)
      (save_job (failed_job now message j) (refresh_contest_score s (save_submission s db)))

unfoldable pub fail_locked : ℕ → ℕ → Reported → String → JudgeJob → Store → Result Store
unfolding failed_store
fail_locked judge now reported message j db = do
  s ← submission_of j db
  if is_failed j.status
      then other_judge j judge >> ok db
      else (assert_owned j judge now
          >> ok (failed_store judge now message j db (failed_submission reported s)))

-- `JudgeResultService.fail`
unfoldable pub fail : ℕ → ℕ → ℕ → Reported → String → Store → Result Store
unfolding fail_locked
fail job judge now reported message db = do
  j ← lock_job job db
  fail_locked judge now reported message j db
