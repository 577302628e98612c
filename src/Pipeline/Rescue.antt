-- ===== src/Pipeline/Rescue.antt =====
-- No work is lost with a worker: the job of one that has stopped is handed out again.
use judgeloom_core.Base.{
  ℕ, ◌≡◌, refl, sym, ap, ◌∙◌, subst, arith, ◌==◌, ==_iff, Bool, true, false, not, ◌&&◌, is_some,
  Option, none, some, List, [], ◌∷◌, if◌then◌else◌, select, first, contains, All, select_comm,
  select_keep, select_skip, first-update_where, Bool-cases, inl, inr,
}
use judgeloom_core.Base.Sort.{insert_sorted, sort_by}
use judgeloom_core.Models.{JudgeJob, Store, find_job, save_job}
use judgeloom_core.Judge.Leases.{is_stale}
use judgeloom_core.Judge.Gateway.{
  is_exhausted, requeued_job, expired_job, expire_job, expire_jobs, stale_jobs, expire_stale_jobs,
  queue_order, is_eligible, next_job, claim, claim_job,
}
use judgeloom_core.Judge.Machine.{AreDistinct}
use judgeloom_core.Pipeline.Expiry.{
  IsFound, expire_job-rows, expire_job-IsFound, AreDistinct-select,
}

module _ {A : Type 0} where
  insert_sorted-some :
      (le : A → A → Bool) (a : A) (xs : List A) → is_some (first (insert_sorted le a xs)) ≡ true
  unfolding insert_sorted
  insert_sorted-some le a [] = refl
  insert_sorted-some le a (x ∷ xs) = elim (Bool-cases (le a x)) [
    | inl t ↦ rw t refl
    | inr f ↦ rw f refl
  ]

  -- Sorting leaves no list empty.
  sort_by-some :
      (le : A → A → Bool) (xs : List A) → is_some (first (sort_by le xs)) ≡ is_some (first xs)
  unfolding sort_by
  sort_by-some le [] = refl
  sort_by-some le (x ∷ xs) = insert_sorted-some le x (sort_by le xs)

  same_row : {a b : A} → some a ≡ some b → a ≡ b
  same_row e = cc

  -- A row that is found passes another test, so that test finds a row.
  select-some :
      (p q : A → Bool) (xs : List A) {a : A}
      → first (select q xs) ≡ some a
      → p a ≡ true
      → is_some (first (select p xs)) ≡ true
  select-some p q [] e t = cc
  select-some p q (x ∷ xs) {a} e t = elim (Bool-cases (p x)) [
    | inl here ↦ ap (λ l. is_some (first l)) (select_keep p x xs here)
    | inr f ↦ elim (Bool-cases (q x)) [
      | inl g ↦
          let same : x ≡ a = same_row (ap first (sym (select_keep q x xs g)) ∙ e) in
          let here : p x ≡ true = subst (λ r. p r ≡ true) (sym same) t in
          ap (λ l. is_some (first l)) (select_keep p x xs here)
      | inr g ↦
          ap (λ l. is_some (first l)) (select_skip p x xs f)
          ∙ select-some p q xs (ap first (sym (select_skip q x xs g)) ∙ e) t
    ]
  ]

  first-select :
      (p : A → Bool) (xs : List A) {a : A}
      → first xs ≡ some a
      → p a ≡ true
      → first (select p xs) ≡ some a
  first-select p [] e t = cc
  first-select p (x ∷ xs) {a} e t =
      let same : x ≡ a = same_row e in
      ap first (select_keep p x xs (subst (λ r. p r ≡ true) (sym same) t)) ∙ e

expire_jobs-IsFound :
    (now : ℕ) (r : JudgeJob) (js : List JudgeJob) (db : Store)
    → All (λ j. (r.id == j.id) ≡ false) js
    → IsFound db r
    → IsFound (expire_jobs now js db) r
unfolding expire_jobs
expire_jobs-IsFound now r [] db others found = found
expire_jobs-IsFound now r (j ∷ js) db others found =
    expire_jobs-IsFound now r js (expire_job now j db) others.1
      (expire_job-IsFound now j r db others.0 found)

turned :
    (k : ℕ) (js : List JudgeJob)
    → All (λ r. (r.id == k) ≡ false) js
    → All (λ r. (k == r.id) ≡ false) js
turned k [] h = tt
turned k (j ∷ js) h = (ground (arith, h.0), turned k js h.1)

expire_job-requeued :
    (now : ℕ) (j : JudgeJob) (db : Store)
    → is_exhausted j ≡ false
    → IsFound db j
    → IsFound (expire_job now j db) (requeued_job j)
expire_job-requeued now j db left found =
    ap (λ js. first (select (λ r. r.id == j.id) js))
      ((expire_job-rows now j db).0
        ∙ ap (λ (b : Bool). (save_job (if b then expired_job now j else requeued_job j) db).jobs)
            left)
    ∙ first-update_where (λ r. r.id == j.id) (requeued_job j) db.jobs ((==_iff j.id j.id).1 refl)
        found

-- A stale job with an attempt left is in the queue after the loop.
expire_jobs-requeued :
    (now : ℕ) (j : JudgeJob) (js : List JudgeJob) (db : Store)
    → AreDistinct js
    → first (select (λ r. r.id == j.id) js) ≡ some j
    → is_exhausted j ≡ false
    → IsFound db j
    → IsFound (expire_jobs now js db) (requeued_job j)
unfolding expire_jobs
expire_jobs-requeued now j [] db distinct e left found = cc
expire_jobs-requeued now j (x ∷ xs) db distinct e left found = elim (Bool-cases (x.id == j.id)) [
  | inl t ↦
      let same : x ≡ j = same_row (ap first (sym (select_keep (λ r. r.id == j.id) x xs t)) ∙ e) in
      expire_jobs-IsFound now (requeued_job j) xs (expire_job now x db)
        (subst (λ (y : JudgeJob). All (λ r. (y.id == r.id) ≡ false) xs) same
          (turned x.id xs distinct.0))
        (subst (λ y. IsFound (expire_job now y db) (requeued_job j)) (sym same)
          (expire_job-requeued now j db left found))
  | inr f ↦
      let other : (j.id == x.id) ≡ false = ground arith in
      expire_jobs-requeued now j xs (expire_job now x db) distinct.1
        (ap first (sym (select_skip (λ r. r.id == j.id) x xs f)) ∙ e) left
        (expire_job-IsFound now x j db other found)
]

expire_stale_jobs-requeued :
    (locked : List ℕ) (now : ℕ) (j : JudgeJob) (db : Store)
    → AreDistinct db.jobs
    → find_job j.id db ≡ some j
    → is_stale now j ≡ true
    → contains j.id locked ≡ false
    → is_exhausted j ≡ false
    → IsFound (expire_stale_jobs locked now db).0 (requeued_job j)
unfolding expire_stale_jobs stale_jobs
expire_stale_jobs-requeued locked now j db distinct found stale free left =
    let test = λ (j : JudgeJob). is_stale now j && not (contains j.id locked) in
    expire_jobs-requeued now j (stale_jobs locked now db) db
      (AreDistinct-select test db.jobs distinct)
      (ap first (select_comm (λ r. r.id == j.id) test db.jobs)
        ∙ first-select test (select (λ r. r.id == j.id) db.jobs) found (ground arith))
      left found

claim-some :
    (judge now : ℕ) (o : Option JudgeJob) (db : Store)
    → is_some (claim judge now o db).1 ≡ is_some o
claim-some judge now none db = refl
claim-some judge now (some j) db = refl

-- A worker that asks for a job gets one as long as a job that it can run has been left by a worker
-- whose lease ran out, if the job has an attempt left, no other transaction holds it, and no two
-- jobs have one id.
pub claim_job-some :
    (locked : List ℕ) (judge : ℕ) (languages : List ℕ) (now : ℕ) (j : JudgeJob) (db : Store)
    → AreDistinct db.jobs
    → find_job j.id db ≡ some j
    → is_stale now j ≡ true
    → contains j.id locked ≡ false
    → is_exhausted j ≡ false
    → contains j.language_id languages ≡ true
    → is_some (claim_job locked judge languages now db).1 ≡ true
unfolding claim_job next_job
claim_job-some locked judge languages now j db distinct found stale free left able =
    let fresh = (expire_stale_jobs locked now db).0 in
    claim-some judge now (next_job locked languages fresh) fresh
    ∙ (sort_by-some queue_order (select (is_eligible locked languages) fresh.jobs)
        ∙ select-some (is_eligible locked languages) (λ r. r.id == j.id) fresh.jobs
            (expire_stale_jobs-requeued locked now j db distinct found stale free left)
            (ground arith))
