-- ===== src/Pipeline/Expiry.antt =====
-- The expiry of leases moves the jobs as the machine of a job (Judge.Machine) allows.
use judgeloom_core.Base.{
  ℕ, ◌≡◌, refl, ap, ◌∙◌, arith, ◌==◌, Bool, true, false, not, ◌&&◌, some, List, [], ◌∷◌,
  if◌then◌else◌, select, contains, All, All-select, All-weaken, select-holds, Bool-cases, inl, inr,
}
use judgeloom_core.Models.{JudgeJob, Store, is_active_status, save_job, find_job}
use judgeloom_core.Judge.Leases.{is_stale}
use judgeloom_core.Judge.Gateway.{
  is_exhausted, requeued_job, expired_job, expire_job, expire_jobs, stale_jobs, expire_stale_jobs,
}
use judgeloom_core.Judge.Machine.{
  no_reset, returns, gives_up, Move-Moves, AreDistinct, Keyed, Follows, Follows-refl, Follows-trans,
  AreDistinct-found, find_job-save_job, saved-Follows,
}

-- A row of the table, which is the one that is found by its key.
abbrev pub IsFound : Store → JudgeJob → Type 0
IsFound db j = find_job j.id db ≡ some j

pub Keyed-IsFound : (db : Store) → Keyed db → All (IsFound db) db.jobs
Keyed-IsFound db h = AreDistinct-found db.jobs h.1

-- What becomes of a job whose lease has run out.
abbrev outcome : ℕ → JudgeJob → JudgeJob
outcome now j = if is_exhausted j then expired_job now j else requeued_job j

pub expire_job-rows :
    (now : ℕ) (j : JudgeJob) (db : Store)
    → ((expire_job now j db).jobs ≡ (save_job (outcome now j) db).jobs)
      × ((expire_job now j db).next_id ≡ db.next_id)
unfolding expire_job
expire_job-rows now j db = elim (Bool-cases (is_exhausted j)) [
  | inl t ↦ rw t (refl, refl)
  | inr f ↦ rw f (refl, refl)
]

expire_job-Follows :
    (now : ℕ) (j : JudgeJob) (db : Store)
    → is_active_status j.status ≡ true
    → IsFound db j
    → Keyed db
    → Follows no_reset db (expire_job now j db)
expire_job-Follows now j db active found h =
    let (jobs, next) = expire_job-rows now j db in
    let same = λ (b : Bool). (save_job (if b then expired_job now j else requeued_job j) db).jobs in
    elim (Bool-cases (is_exhausted j)) [
      | inl t ↦
          saved-Follows no_reset j (expired_job now j) db (expire_job now j db) h found
            (Move-Moves (gives_up active)) (jobs ∙ ap same t) next
      | inr f ↦
          saved-Follows no_reset j (requeued_job j) db (expire_job now j db) h found
            (Move-Moves (returns active (ground arith))) (jobs ∙ ap same f) next
    ]

pub expire_job-IsFound :
    (now : ℕ) (j r : JudgeJob) (db : Store)
    → (r.id == j.id) ≡ false
    → IsFound db r
    → IsFound (expire_job now j db) r
unfolding expire_job
expire_job-IsFound now j r db other found = elim (Bool-cases (is_exhausted j)) [
  | inl t ↦ rw t (find_job-save_job r.id (expired_job now j) db other found)
  | inr f ↦ rw f (find_job-save_job r.id (requeued_job j) db other found)
]

abbrev IsPending : Store → JudgeJob → Type 0
IsPending db j = (is_active_status j.status ≡ true) × IsFound db j

expire_job-IsPending :
    (now : ℕ) (j : JudgeJob) (db : Store) (js : List JudgeJob)
    → All (λ r. (r.id == j.id) ≡ false) js
    → All (IsPending db) js
    → All (IsPending (expire_job now j db)) js
expire_job-IsPending now j db [] others h = tt
expire_job-IsPending now j db (r ∷ rs) others h = (
  (h.0.0, expire_job-IsFound now j r db others.0 h.0.1),
  expire_job-IsPending now j db rs others.1 h.1,
)

expire_jobs-Follows :
    (now : ℕ) (js : List JudgeJob) (db : Store)
    → AreDistinct js
    → All (IsPending db) js
    → Keyed db
    → Follows no_reset db (expire_jobs now js db)
unfolding expire_jobs
expire_jobs-Follows now [] db distinct pending h = Follows-refl no_reset db h
expire_jobs-Follows now (j ∷ js) db distinct pending h =
    Follows-trans no_reset db (expire_job now j db) (expire_jobs now js (expire_job now j db))
      (expire_job-Follows now j db pending.0.0 pending.0.1 h)
      (expire_jobs-Follows now js (expire_job now j db) distinct.1
        (expire_job-IsPending now j db js distinct.0 pending.1))

pub AreDistinct-select :
    (p : JudgeJob → Bool) (js : List JudgeJob) → AreDistinct js → AreDistinct (select p js)
AreDistinct-select p [] h = tt
AreDistinct-select p (j ∷ js) h = elim (Bool-cases (p j)) [
  | inl t ↦ rw t (All-select (λ r. (r.id == j.id) ≡ false) p js h.0, AreDistinct-select p js h.1)
  | inr f ↦ rw f (AreDistinct-select p js h.1)
]

pub expire_stale_jobs-Follows :
    (locked : List ℕ) (now : ℕ) (db : Store)
    → Keyed db
    → Follows no_reset db (expire_stale_jobs locked now db).0
unfolding expire_stale_jobs stale_jobs
expire_stale_jobs-Follows locked now db h =
    let test = λ (j : JudgeJob). is_stale now j && not (contains j.id locked) in
    expire_jobs-Follows now (stale_jobs locked now db) db (AreDistinct-select test db.jobs h.1)
      (All-weaken (λ j held. (ground arith, held.0)) (stale_jobs locked now db)
        (select-holds (IsFound db) test db.jobs (Keyed-IsFound db h)))
      h
