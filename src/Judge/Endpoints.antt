-- ===== src/Judge/Endpoints.antt =====
-- apps/judge/api/gateway.py: the requests of a worker, with the check of the package that it ran.
use text.Mathlib.Text.{◌==◌ as str_eq}
use judgeloom_core.Base.{
  ℕ, String, Bool, false, not, ◌&&◌, Option, none, some, List, is_id, update_where, Result,
  raise_if, judge_job_conflict, ◌>>=◌, ◌>>◌,
}
use judgeloom_core.Models.{Package, JudgeJob, is_active_status, Reported, Store}
use judgeloom_core.Scoring.Cases.{ReportedCase}
use judgeloom_core.Judge.Leases.{lease_until}
use judgeloom_core.Judge.Callbacks.{lock_job, record_cases, finish, fail}

abbrev pub has_hash : Option Package → String → Bool
has_hash none sha256 = false
has_hash (some p) sha256 = str_eq sha256 p.sha256

-- `_verify_package`: a worker that reports no hash (an absent or an empty one) is not checked.
abbrev pub verify_package : JudgeJob → Option String → Result (Unit {0})
verify_package j none = raise_if false (judge_job_conflict "")
verify_package j (some sha256) =
    raise_if (not (str_eq sha256 "") && not (has_hash j.pack sha256))
      (judge_job_conflict "The worker reported a stale package hash.")

-- The leases of the judge's active jobs are extended (`heartbeat`).
unfoldable pub heartbeat : ℕ → ℕ → Store → Store
heartbeat judge now db = record db {
  jobs =
      update_where (λ j. is_id j.claimed_by judge && is_active_status j.status)
        (λ j. record j { lease_expires_at = lease_until now }) db.jobs;
}

-- `record_cases`, `finish_job` and `fail_job`
unfoldable pub post_cases : ℕ → ℕ → ℕ → Option String → List ReportedCase → Store → Result Store
post_cases job judge now sha256 reported db = do
  j ← lock_job job db
  verify_package j sha256
  record_cases job judge now reported db

unfoldable pub post_finish : ℕ → ℕ → ℕ → Option String → String → Store → Result Store
post_finish job judge now sha256 message db = do
  j ← lock_job job db
  verify_package j sha256
  finish job judge now message db

unfoldable pub post_fail : ℕ → ℕ → ℕ → Option String → Reported → String → Store → Result Store
post_fail job judge now sha256 reported message db = do
  j ← lock_job job db
  verify_package j sha256
  fail job judge now reported message db
