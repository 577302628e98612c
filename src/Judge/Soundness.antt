-- ===== src/Judge/Soundness.antt =====
-- What holds of every judge job between two requests, and that each operation on jobs keeps it.
use judgeloom_core.Base.{
  ℕ, ◌≤◌, ◌<◌, ◌≡◌, ◌⊎◌, inl, inr, Bool, true, false, not, ◌&&◌, none, some, List, [], ◌∷◌, arith,
  ◌==◌, is_some, select, contains, All, Option-cases, All-update_where, All-select, select-holds,
  first-holds, Bool-cases,
}
use judgeloom_core.Base.Sort.{sort_by, All-sort_by}
use judgeloom_core.Models.{JudgeJob, JobStatus, is_queued, is_active_status, Store, save_job}
use judgeloom_core.Judge.Leases.{is_stale}
use judgeloom_core.Judge.Gateway.{
  is_exhausted, requeued_job, expired_job, expire_job, expire_jobs, stale_jobs, expire_stale_jobs,
  queue_order, is_eligible, next_job, claimed_job, claim, claim_job,
}

abbrev pub is_done : JobStatus → Bool
is_done JobStatus.succeeded = true
is_done JobStatus.failed = true
is_done _ = false

-- A queued job has no owner, no lease and an attempt left; an active one has an owner and a lease;
-- a finished one has no lease; and no job counts more attempts than it may have.
pub record IsSound (j : JudgeJob) : Type 0 where
  pub positive : 0 < j.max_attempts
  pub bounded : j.attempts ≤ j.max_attempts
  pub queued_free :
      is_queued j.status ≡ true
      → (j.claimed_by ≡ none) × (j.lease_expires_at ≡ none) × (j.attempts < j.max_attempts)
  pub active_owned :
      is_active_status j.status ≡ true
      → (is_some j.claimed_by ≡ true) × (is_some j.lease_expires_at ≡ true)
  pub done_released :
      is_done j.status ≡ true → (j.lease_expires_at ≡ none) × (is_some j.finished_at ≡ true)

abbrev pub JobsAreSound : Store → Type 0
JobsAreSound db = All IsSound db.jobs

pub save_job-JobsAreSound :
    (j : JudgeJob) (db : Store) → IsSound j → JobsAreSound db → JobsAreSound (save_job j db)
save_job-JobsAreSound j db sound h =
    All-update_where IsSound (λ r. r.id == j.id) (λ _. j) (λ a _ _. sound) db.jobs h

requeued_job-IsSound :
    (j : JudgeJob) → is_exhausted j ≡ false → IsSound j → IsSound (requeued_job j)
requeued_job-IsSound j e s = ground arith

expired_job-IsSound : (now : ℕ) (j : JudgeJob) → IsSound j → IsSound (expired_job now j)
expired_job-IsSound now j s = ground arith

expire_job-JobsAreSound :
    (now : ℕ) (j : JudgeJob) (db : Store)
    → IsSound j
    → JobsAreSound db
    → JobsAreSound (expire_job now j db)
unfolding expire_job
expire_job-JobsAreSound now j db s h = elim (Bool-cases (is_exhausted j)) [
  | inl e ↦ rw e (save_job-JobsAreSound (expired_job now j) db (expired_job-IsSound now j s) h)
  | inr e ↦ rw e (save_job-JobsAreSound (requeued_job j) db (requeued_job-IsSound j e s) h)
]

expire_jobs-JobsAreSound :
    (now : ℕ) (js : List JudgeJob) (db : Store)
    → All IsSound js
    → JobsAreSound db
    → JobsAreSound (expire_jobs now js db)
unfolding expire_jobs
expire_jobs-JobsAreSound now [] db s h = h
expire_jobs-JobsAreSound now (j ∷ js) db s h =
    expire_jobs-JobsAreSound now js (expire_job now j db) s.1
      (expire_job-JobsAreSound now j db s.0 h)

-- `expire_stale_jobs` keeps every job sound.
pub expire_stale_jobs-JobsAreSound :
    (locked : List ℕ) (now : ℕ) (db : Store)
    → JobsAreSound db
    → JobsAreSound (expire_stale_jobs locked now db).0
unfolding expire_stale_jobs stale_jobs
expire_stale_jobs-JobsAreSound locked now db h =
    expire_jobs-JobsAreSound now (stale_jobs locked now db) db
      (All-select IsSound (λ j. is_stale now j && not (contains j.id locked)) db.jobs h) h

claimed_job-IsSound :
    (judge now : ℕ) (j : JudgeJob)
    → is_queued j.status ≡ true
    → IsSound j
    → IsSound (claimed_job judge now j)
claimed_job-IsSound judge now j e s = ground arith

-- The job that is chosen is one of the table's, queued, runnable, and not locked.
pub next_job-eligible :
    (locked languages : List ℕ) (db : Store) (j : JudgeJob)
    → JobsAreSound db
    → next_job locked languages db ≡ some j
    → IsSound j × (is_eligible locked languages j ≡ true)
unfolding next_job
next_job-eligible locked languages db j h e =
    first-holds (λ a. IsSound a × (is_eligible locked languages a ≡ true))
      (sort_by queue_order (select (is_eligible locked languages) db.jobs))
      (All-sort_by queue_order (λ a. IsSound a × (is_eligible locked languages a ≡ true)) _
        (select-holds IsSound (is_eligible locked languages) db.jobs h))
      e

-- `claim_job` keeps every job sound.
pub claim_job-JobsAreSound :
    (locked : List ℕ) (judge : ℕ) (languages : List ℕ) (now : ℕ) (db : Store)
    → JobsAreSound db
    → JobsAreSound (claim_job locked judge languages now db).0
unfolding claim_job
claim_job-JobsAreSound locked judge languages now db h =
    claimed (expire_stale_jobs locked now db).0 (expire_stale_jobs-JobsAreSound locked now db h)
      (Option-cases (next_job locked languages (expire_stale_jobs locked now db).0))
  where
    claimed :
        (fresh : Store)
        → JobsAreSound fresh
        → (next_job locked languages fresh ≡ none)
          ⊎ ((j : JudgeJob) × (next_job locked languages fresh ≡ some j))
        → JobsAreSound (claim judge now (next_job locked languages fresh) fresh).0
    claimed fresh sound (inl e) = rw e sound
    claimed fresh sound (inr (j, e)) =
        let (job_sound, eligible) = next_job-eligible locked languages fresh j sound e in
        rw e (
          save_job-JobsAreSound (claimed_job judge now j) fresh
            (claimed_job-IsSound judge now j (ground arith) job_sound) sound)
