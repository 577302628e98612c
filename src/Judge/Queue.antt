-- ===== src/Judge/Queue.antt =====
-- What the queue promises (judge_gateway_service.py): the order in which jobs go out, that expiry
-- leaves no stale job behind, and that a job with a running lease is left to its worker.
use judgeloom_core.Base.{
  ℕ, ◌≤◌, ap, first-holds, select-passes, ◌≡◌, refl, sym, subst, ◌⊎◌, inl, inr, Bool, true, false,
  not, ◌&&◌, some, List, [], ◌∷◌, map, arith, ◌==◌, select, select_keep, select_skip, first,
  contains, update_where, All, All-weaken, Bool-cases,
}
use judgeloom_core.Base.Int.{ltb_ℤ, eq_of_parts}
use judgeloom_core.Base.Sort.{
  All-sort_by, All-unsorted, IsOrder, IsSorted, sort_by, sort_by-IsSorted,
}
use judgeloom_core.Models.{JudgeJob, JobStatus, is_queued, Store}
use judgeloom_core.Judge.Leases.{is_stale}
use judgeloom_core.Judge.Gateway.{
  requeued_job, expired_job, is_exhausted, expire_job, expire_jobs, stale_jobs, expire_stale_jobs,
  queue_order, is_eligible, next_job,
}

queue_order-IsOrder : IsOrder queue_order
queue_order-IsOrder = record { total = λ a b. ground arith; trans = λ a b c h k. ground arith }

first-IsSorted :
    (xs : List JudgeJob) (j : JudgeJob)
    → IsSorted queue_order xs
    → first xs ≡ some j
    → All (λ k. queue_order j k ≡ true) xs
first-IsSorted [] j sorted e = tt
first-IsSorted (x ∷ xs) j sorted e =
    let same : x ≡ j = cc in
    subst (λ y. All (λ k. queue_order y k ≡ true) (x ∷ xs)) same (ground arith, sorted.0)

-- One job has a higher priority than the other, or the same priority and is not younger.
abbrev pub GoesBefore : JudgeJob → JudgeJob → Type 0
GoesBefore j k =
    (ltb_ℤ k.priority j.priority ≡ true)
    ⊎ ((j.priority ≡ k.priority) × (j.created_at ≤ k.created_at))

-- A job that waits, that the worker can run, and that no other transaction holds.
pub record IsOpen (locked languages : List ℕ) (j : JudgeJob) : Type 0 where
  pub queued : j.status ≡ JobStatus.queued
  pub runnable : contains j.language_id languages ≡ true
  pub free : contains j.id locked ≡ false

before-GoesBefore : (j k : JudgeJob) → queue_order j k ≡ true → GoesBefore j k
before-GoesBefore j k h = elim (Bool-cases (ltb_ℤ k.priority j.priority)) [
  | inl t ↦ inl t
  | inr f ↦ elim (Bool-cases (ltb_ℤ j.priority k.priority)) [
    | inl t ↦ absurd (ground arith)
    | inr g ↦ inr (eq_of_parts j.priority k.priority (ground arith), ground arith)
  ]
]

is_queued-status : (s : JobStatus) → is_queued s ≡ true → s ≡ JobStatus.queued
is_queued-status JobStatus.queued h = refl
is_queued-status _ h = cc

IsOpen-rows :
    (locked languages : List ℕ) (j : JudgeJob) (js : List JudgeJob)
    → All (GoesBefore j) (select (is_eligible locked languages) js)
    → All (λ k. IsOpen locked languages k → GoesBefore j k) js
IsOpen-rows locked languages j [] h = tt
IsOpen-rows locked languages j (k ∷ ks) h = elim (Bool-cases (is_eligible locked languages k)) [
  | inl t ↦
      let rows : All (GoesBefore j) (k ∷ select (is_eligible locked languages) ks) = rw t at h in
      (λ o. rows.0, IsOpen-rows locked languages j ks rows.1)
  | inr f ↦
      let rows : All (GoesBefore j) (select (is_eligible locked languages) ks) = rw f at h in
      (λ o. absurd (closed k f o), IsOpen-rows locked languages j ks rows)
]
  where
    closed : (k : JudgeJob) → is_eligible locked languages k ≡ false → IsOpen locked languages k → ⊥
    closed k f o =
        let waits : is_queued k.status ≡ true = ap is_queued o.queued in
        ground (arith, o.runnable, o.free)

-- The job that goes out waits, can be run by the worker, and is not locked; and every other such job
-- of the table has a lower priority, or the same priority and is not older.
pub next_job-first :
    (locked languages : List ℕ) (db : Store) (j : JudgeJob)
    → next_job locked languages db ≡ some j
    → IsOpen locked languages j × All (λ k. IsOpen locked languages k → GoesBefore j k) db.jobs
unfolding next_job
next_job-first locked languages db j e =
    let eligible = select (is_eligible locked languages) db.jobs in
    let ahead =
      first-IsSorted (sort_by queue_order eligible) j
        (sort_by-IsSorted queue_order queue_order-IsOrder eligible) e in
    let own : is_eligible locked languages j ≡ true =
      first-holds (λ k. is_eligible locked languages k ≡ true) (sort_by queue_order eligible)
        (All-sort_by queue_order (λ k. is_eligible locked languages k ≡ true) eligible
          (select-passes (is_eligible locked languages) db.jobs))
        e in
    (
      record {
        queued = is_queued-status j.status (ground arith);
        runnable = ground arith;
        free = ground arith;
      },
      IsOpen-rows locked languages j db.jobs (
          All-weaken (λ k h. before-GoesBefore j k h) eligible
            (All-unsorted queue_order (λ k. queue_order j k ≡ true) eligible ahead)),
    )

-- No job of the table is stale, apart from those that another transaction holds.
abbrev pub is_expiring : List ℕ → ℕ → JudgeJob → Bool
is_expiring locked now j = is_stale now j && not (contains j.id locked)

abbrev pub ids : List JudgeJob → List ℕ
ids js = map (λ j. j.id) js

abbrev Pending : List ℕ → ℕ → List JudgeJob → JudgeJob → Type 0
Pending locked now js k = (is_expiring locked now k ≡ false) ⊎ (contains k.id (ids js) ≡ true)

selected_or_not :
    (locked : List ℕ) (now : ℕ) (js : List JudgeJob)
    → All (Pending locked now (select (is_expiring locked now) js)) js
selected_or_not locked now [] = tt
selected_or_not locked now (j ∷ js) = elim (Bool-cases (is_expiring locked now j)) [
  | inl e ↦
      subst (λ l. All (Pending locked now l) (j ∷ js))
        (sym (select_keep (is_expiring locked now) j js e))
        (
          inr (ground arith),
          All-weaken (λ k h. elim h [ inl g ↦ inl g | inr g ↦ inr (ground arith) ]) js
              (selected_or_not locked now js),
        )
  | inr e ↦
      subst (λ l. All (Pending locked now l) (j ∷ js))
        (sym (select_skip (is_expiring locked now) j js e)) (inl e, selected_or_not locked now js)
]

-- A job that expiry has written is not stale.
requeued_job-fresh :
    (locked : List ℕ) (now : ℕ) (j : JudgeJob) → is_expiring locked now (requeued_job j) ≡ false
requeued_job-fresh locked now j = refl

expired_job-fresh :
    (locked : List ℕ) (now : ℕ) (j : JudgeJob) → is_expiring locked now (expired_job now j) ≡ false
expired_job-fresh locked now j = refl

save-Pending :
    (locked : List ℕ) (now : ℕ) (moved j : JudgeJob) (js rows : List JudgeJob)
    → moved.id ≡ j.id
    → is_expiring locked now moved ≡ false
    → All (Pending locked now (j ∷ js)) rows
    → All (Pending locked now js) (update_where (λ r. r.id == moved.id) (λ _. moved) rows)
save-Pending locked now moved j js [] same fresh h = tt
save-Pending locked now moved j js (r ∷ rows) same fresh h = (
  elim (Bool-cases (r.id == moved.id)) [
    | inl e ↦ rw e (inl fresh)
    | inr e ↦ rw e (elim h.0 [ inl g ↦ inl g | inr g ↦ inr (ground arith) ])
  ],
  save-Pending locked now moved j js rows same fresh h.1,
)

expire_jobs-fresh :
    (locked : List ℕ) (now : ℕ) (js : List JudgeJob) (db : Store)
    → All (Pending locked now js) db.jobs
    → All (λ k. is_expiring locked now k ≡ false) (expire_jobs now js db).jobs
unfolding expire_jobs expire_job
expire_jobs-fresh locked now [] db h =
    All-weaken (λ k p. elim p [ inl g ↦ g | inr g ↦ cc ]) db.jobs h
expire_jobs-fresh locked now (j ∷ js) db h =
    expire_jobs-fresh locked now js (expire_job now j db) (elim (Bool-cases (is_exhausted j)) [
      | inl e ↦ rw e (
          save-Pending locked now (expired_job now j) j js db.jobs refl
            (expired_job-fresh locked now j) h)
      | inr e ↦ rw e (
          save-Pending locked now (requeued_job j) j js db.jobs refl
            (requeued_job-fresh locked now j) h)
    ])

-- After expiry no job has an expired lease, but for those that another transaction holds.
pub expire_stale_jobs_complete :
    (locked : List ℕ) (now : ℕ) (db : Store)
    → All (λ k. is_expiring locked now k ≡ false) (expire_stale_jobs locked now db).0.jobs
unfolding expire_stale_jobs stale_jobs
expire_stale_jobs_complete locked now db =
    expire_jobs-fresh locked now (stale_jobs locked now db) db (selected_or_not locked now db.jobs)
