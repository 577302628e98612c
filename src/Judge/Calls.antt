-- ===== src/Judge/Calls.antt =====
-- The callbacks of a worker taken together (judge_result_service.py): each locks its job first, only
-- the owner gets past its checks, and none makes a job unsound.
use judgeloom_core.Base.{
  ℕ, ◌≡◌, refl, sym, ◌∙◌, true, some, List, ◌==◌, is_id, select, All-select, first-holds, Result,
  ok, >>=-eq-ok, ◌>>=◌, String, subst, ==_iff, first-passes,
}
use judgeloom_core.Models.{JudgeJob, Store, find_job, Reported}
use judgeloom_core.Scoring.Cases.{ReportedCase}
use judgeloom_core.Judge.Callbacks.{
  or_not_found-eq-ok, lock_job, start_locked, start, record_cases_locked, record_cases,
  finish_locked, finish, fail_locked, fail,
}
use judgeloom_core.Judge.Soundness.{IsSound, JobsAreSound}
use judgeloom_core.Judge.Machine.{no_reset, Keyed, Follows, Follows-refl, saved-Follows}
use judgeloom_core.Judge.Ownership.{
  Owned, unchanged, saved, Owned-owner, Owned-JobsAreSound, start_locked-Owned,
  record_cases_locked-Owned, finish_locked-Owned, fail_locked-Owned,
}

-- One request of a worker on a job.
pub data Callback : Type 0 where
  starts : Callback
  reports : List ReportedCase → Callback
  finishes : String → Callback
  fails : Reported → String → Callback

unfoldable pub call_locked : ℕ → ℕ → Callback → JudgeJob → Store → Result Store
unfolding start_locked record_cases_locked finish_locked fail_locked
call_locked judge now starts j db = start_locked judge now j db
call_locked judge now (reports cases) j db = record_cases_locked judge now cases j db
call_locked judge now (finishes message) j db = finish_locked judge now message j db
call_locked judge now (fails reported message) j db = fail_locked judge now reported message j db

unfoldable pub call : ℕ → ℕ → ℕ → Callback → Store → Result Store
unfolding start record_cases finish fail
call job judge now starts db = start job judge now db
call job judge now (reports cases) db = record_cases job judge now cases db
call job judge now (finishes message) db = finish job judge now message db
call job judge now (fails reported message) db = fail job judge now reported message db

call_locked-Owned :
    (judge now : ℕ) (c : Callback) (j : JudgeJob) (db new : Store)
    → call_locked judge now c j db ≡ ok new
    → Owned judge j db new
unfolding call_locked
call_locked-Owned judge now starts j db new e = start_locked-Owned judge now j db new e
call_locked-Owned judge now (reports cases) j db new e =
    record_cases_locked-Owned judge now cases j db new e
call_locked-Owned judge now (finishes message) j db new e =
    finish_locked-Owned judge now message j db new e
call_locked-Owned judge now (fails reported message) j db new e =
    fail_locked-Owned judge now reported message j db new e

-- Every callback first locks its job.
call-lock_job :
    (job judge now : ℕ) (c : Callback) (db : Store)
    → call job judge now c db ≡ (lock_job job db >>= λ j. call_locked judge now c j db)
unfolding call call_locked
call-lock_job job judge now starts db = refl
call-lock_job job judge now (reports cases) db = refl
call-lock_job job judge now (finishes message) db = refl
call-lock_job job judge now (fails reported message) db = refl

lock_job-find_job :
    (job : ℕ) (db : Store) (j : JudgeJob) → lock_job job db ≡ ok j → find_job job db ≡ some j
lock_job-find_job job db j e = or_not_found-eq-ok (find_job job db) "Judge job not found." e

pub find_job-IsSound :
    (job : ℕ) (db : Store) (j : JudgeJob) → JobsAreSound db → find_job job db ≡ some j → IsSound j
find_job-IsSound job db j h e =
    first-holds IsSound (select (λ r. r.id == job) db.jobs)
      (All-select IsSound (λ r. r.id == job) db.jobs h) e

-- A callback that returns was made by the judge that holds the job, whatever it asked for: no other
-- judge can start, report on, finish or fail the job.
pub call-owner :
    (job judge now : ℕ) (c : Callback) (db new : Store)
    → call job judge now c db ≡ ok new
    → (j : JudgeJob) × (find_job job db ≡ some j) × (is_id j.claimed_by judge ≡ true)
call-owner job judge now c db new e =
    let (j, locked, called) =
      >>=-eq-ok (lock_job job db) (λ j. call_locked judge now c j db)
        (sym (call-lock_job job judge now c db) ∙ e) in
    (
      j,
      lock_job-find_job job db j locked,
      Owned-owner (call_locked-Owned judge now c j db new called),
    )

-- A callback keeps every job sound, whatever it asks for, and whether or not it is the first.
pub call-JobsAreSound :
    (job judge now : ℕ) (c : Callback) (db new : Store)
    → JobsAreSound db
    → call job judge now c db ≡ ok new
    → JobsAreSound new
call-JobsAreSound job judge now c db new h e =
    let (j, locked, called) =
      >>=-eq-ok (lock_job job db) (λ j. call_locked judge now c j db)
        (sym (call-lock_job job judge now c db) ∙ e) in
    Owned-JobsAreSound (call_locked-Owned judge now c j db new called)
      (find_job-IsSound job db j h (lock_job-find_job job db j locked)) h

-- A callback moves its job as the machine of a job allows.
pub call-Follows :
    (job judge now : ℕ) (c : Callback) (db new : Store)
    → call job judge now c db ≡ ok new
    → Keyed db
    → Follows no_reset db new
call-Follows job judge now c db new e h =
    let (j, locked, called) =
      >>=-eq-ok (lock_job job db) (λ j. call_locked judge now c j db)
        (sym (call-lock_job job judge now c db) ∙ e) in
    followed j (lock_job-find_job job db j locked) (call_locked-Owned judge now c j db new called)
  where
    followed :
        (j : JudgeJob) → find_job job db ≡ some j → Owned judge j db new → Follows no_reset db new
    followed j found (unchanged _ same) =
        subst (Follows no_reset db) (sym same) (Follows-refl no_reset db h)
    followed j found (saved m _ id_kept _ jobs next moved) =
        let is_job : j.id ≡ job =
          (==_iff j.id job).0 (first-passes (λ r. r.id == job) db.jobs found) in
        saved-Follows no_reset j m db new h
          (subst (λ k. find_job k db ≡ some j) (sym (id_kept ∙ is_job)) found) moved jobs next
