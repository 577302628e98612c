-- ===== src/Judge/Exclusive.antt =====
-- A job whose lease runs is left to the worker that holds it: neither expiry nor another worker's
-- claim touches its row (judge_gateway_service.py).
use judgeloom_core.Base.{
  ℕ, ◌≡◌, refl, inl, inr, true, false, not, ◌&&◌, Option, none, some, List, [], ◌∷◌, arith, ◌==◌,
  select, contains, update_where, All, All-update_where, All-weaken, select-holds, first-holds,
  Bool-cases,
}
use judgeloom_core.Base.Sort.{sort_by, All-sort_by}
use judgeloom_core.Models.{JudgeJob, is_active_status, Store}
use judgeloom_core.Judge.Leases.{is_stale, lease_before}
use judgeloom_core.Judge.Gateway.{
  requeued_job, expired_job, is_exhausted, expire_job, expire_jobs, stale_jobs, expire_stale_jobs,
  queue_order, is_eligible, next_job, claimed_job, claim, claim_job,
}

-- The rows with the id of `j` are `j` itself.
abbrev pub IsRow : JudgeJob → JudgeJob → Type 0
IsRow j r = (r.id == j.id) ≡ true → r ≡ j

abbrev pub IsUnique : JudgeJob → Store → Type 0
IsUnique j db = All (IsRow j) db.jobs

save_other :
    (j moved : JudgeJob) (rows : List JudgeJob)
    → (moved.id == j.id) ≡ false
    → All (IsRow j) rows
    → All (IsRow j) (update_where (λ r. r.id == moved.id) (λ _. moved) rows)
save_other j moved rows other h =
    All-update_where (IsRow j) (λ r. r.id == moved.id) (λ _. moved) (λ a _ _ e. ground arith) rows h

expire_jobs-IsUnique :
    (j : JudgeJob) (now : ℕ) (js : List JudgeJob) (db : Store)
    → All (λ k. (k.id == j.id) ≡ false) js
    → IsUnique j db
    → IsUnique j (expire_jobs now js db)
unfolding expire_jobs expire_job
expire_jobs-IsUnique j now [] db others h = h
expire_jobs-IsUnique j now (k ∷ js) db others h =
    expire_jobs-IsUnique j now js (expire_job now k db) others.1
      (elim (Bool-cases (is_exhausted k)) [
        | inl e ↦ rw e (save_other j (expired_job now k) db.jobs others.0 h)
        | inr e ↦ rw e (save_other j (requeued_job k) db.jobs others.0 h)
      ])

expire_stale_jobs-IsUnique :
    (locked : List ℕ) (now : ℕ) (j : JudgeJob) (db : Store)
    → is_stale now j ≡ false
    → IsUnique j db
    → IsUnique j (expire_stale_jobs locked now db).0
unfolding expire_stale_jobs stale_jobs
expire_stale_jobs-IsUnique locked now j db fresh h =
    expire_jobs-IsUnique j now (stale_jobs locked now db) db
      (All-weaken (λ k held. ground arith) (stale_jobs locked now db)
        (select-holds (IsRow j) (λ k. is_stale now k && not (contains k.id locked)) db.jobs h))
      h

-- A claim hands out a queued job, so never one that is active.
next_job-other :
    (locked languages : List ℕ) (j t : JudgeJob) (db : Store)
    → is_active_status j.status ≡ true
    → IsUnique j db
    → next_job locked languages db ≡ some t
    → (t.id == j.id) ≡ false
unfolding next_job
next_job-other locked languages j t db active h e =
    first-holds (λ k. (k.id == j.id) ≡ false)
      (sort_by queue_order (select (is_eligible locked languages) db.jobs))
      (All-sort_by queue_order (λ k. (k.id == j.id) ≡ false)
        (select (is_eligible locked languages) db.jobs)
        (All-weaken (λ k held. ground arith) (select (is_eligible locked languages) db.jobs)
          (select-holds (IsRow j) (is_eligible locked languages) db.jobs h)))
      e

-- The job that a claim returned, if any, is not `j`.
abbrev pub IsNot : JudgeJob → Option JudgeJob → Type 0
IsNot j none = Unit
IsNot j (some t) = (t.id == j.id) ≡ false

claim-other :
    (judge now : ℕ) (j : JudgeJob) (o : Option JudgeJob) (db : Store)
    → ((t : JudgeJob) → o ≡ some t → (t.id == j.id) ≡ false)
    → IsUnique j db
    → IsUnique j (claim judge now o db).0 × IsNot j (claim judge now o db).1
claim-other judge now j none db other h = (h, tt)
claim-other judge now j (some t) db other h =
    (save_other j (claimed_job judge now t) db.jobs (other t refl) h, other t refl)

-- While the lease of an active job runs, no claim takes it, and no claim changes its row: two
-- workers never hold the same job.
pub claim_job-exclusive :
    (locked : List ℕ) (judge : ℕ) (languages : List ℕ) (now : ℕ) (j : JudgeJob) (db : Store)
    → is_active_status j.status ≡ true
    → lease_before now j.lease_expires_at ≡ false
    → IsUnique j db
    → IsUnique j (claim_job locked judge languages now db).0
      × IsNot j (claim_job locked judge languages now db).1
unfolding claim_job
claim_job-exclusive locked judge languages now j db active running h =
    let fresh = (expire_stale_jobs locked now db).0 in
    let kept : IsUnique j fresh = expire_stale_jobs-IsUnique locked now j db (ground arith) h in
    claim-other judge now j (next_job locked languages fresh) fresh
      (λ t e. next_job-other locked languages j t fresh active kept e) kept
