-- ===== src/Judge/Callbacks/Locks.antt =====
-- How a callback locks its job and checks who calls, and `start`
-- (apps/judge/services/judge_result_service.py).
use judgeloom_core.Base.{
  ◌≡◌, ℕ, not, Option, none, some, if◌then◌else◌, is_id, String, Result, ok, err, ◌>>=◌, ◌>>◌,
  raise_if, not_found, permission_denied, judge_job_conflict,
}
use judgeloom_core.Models.{
  Submission, SubmissionStatus, JudgeJob, running, is_claimed, is_running, submission_status, Store,
  find_job, find_submission, save_job, publish,
}
use judgeloom_core.Judge.Leases.{assert_owned, lease_until}
use judgeloom_core.Judge.Gateway.{update_submission}

abbrev pub or_not_found {ℓ} : {A : Type ℓ} → Option A → String → Result A
or_not_found none message = err (not_found message)
or_not_found (some a) message = ok a

pub or_not_found-eq-ok {ℓ} :
    {A : Type ℓ} (o : Option A) (message : String) {a : A}
    → or_not_found o message ≡ ok a
    → o ≡ some a
or_not_found-eq-ok none message e = cc
or_not_found-eq-ok (some b) message e = cc

-- `_lock_job`
abbrev pub lock_job : ℕ → Store → Result JudgeJob
lock_job k db = or_not_found (find_job k db) "Judge job not found."

abbrev pub submission_of : JudgeJob → Store → Result Submission
submission_of j db = or_not_found (find_submission j.submission_id db) "Submission not found."

abbrev pub other_judge : JudgeJob → ℕ → Result (Unit {0})
other_judge job judge =
    raise_if (not (is_id job.claimed_by judge))
      (permission_denied "This job is claimed by another judge.")

abbrev pub started : ℕ → JudgeJob → JudgeJob
started now j = record j {
  status = running;
  started_at = some now;
  lease_expires_at = lease_until now;
}

-- `start` of a job that is locked.
unfoldable pub start_locked : ℕ → ℕ → JudgeJob → Store → Result Store
start_locked judge now j db =
    if is_running j.status
    then other_judge j judge >> ok (save_job (record j { lease_expires_at = lease_until now }) db)
    else (assert_owned j judge now
        >> raise_if (not (is_claimed j.status))
            (judge_job_conflict "The judge job cannot be started.")
        >> ok (
            publish (submission_status j.submission_id SubmissionStatus.judging) (
              update_submission j.submission_id
                (λ s. record s { status = SubmissionStatus.judging })
                (save_job (started now j) db))))

-- `JudgeResultService.start`
unfoldable pub start : ℕ → ℕ → ℕ → Store → Result Store
unfolding start_locked
start job judge now db = do j ← lock_job job db; start_locked judge now j db
