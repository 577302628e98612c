-- ===== src/Judge/Machine.antt =====
-- The life of one judge job, as the worker protocol promises it, without leases, times and the
-- queue; and when the table of jobs follows it.
use judgeloom_core.Base.{
  ℕ, suc, ◌≤◌, ◌<◌, ◌≡◌, refl, sym, ap, ◌∙◌, subst, arith, ◌==◌, ==_iff, Bool, true, false, Option,
  none, some, List, [], ◌∷◌, if◌then◌else◌, select, first, update_where, All, All-update_where,
  All-weaken, first-passes, first-update_where, Bool-cases, inl, inr,
}
use judgeloom_core.Models.{
  JudgeJob, JobStatus, claimed, running, succeeded, failed, is_queued, is_claimed, is_active_status,
  Store, find_job, save_job,
}

-- What a worker sees of a job.
pub record View : Type 0 where
  pub status : JobStatus
  pub submission : ℕ
  pub owner : Option ℕ
  pub attempts : ℕ
  pub limit : ℕ

abbrev pub view : JudgeJob → View
view j = record {
  status = j.status;
  submission = j.submission_id;
  owner = j.claimed_by;
  attempts = j.attempts;
  limit = j.max_attempts;
}

-- One move; `resets` tells the submissions whose jobs a rejudge resets.
pub data Move (resets : ℕ → Bool) (v : View) : View → Type 0 where
  is_taken :
      (judge : ℕ)
      → is_queued v.status ≡ true
      → Move resets v (record v { status = claimed; owner = some judge; attempts = suc v.attempts })
  begins : is_claimed v.status ≡ true → Move resets v (record v { status = running })
  returns :
      is_active_status v.status ≡ true
      → v.attempts < v.limit
      → Move resets v (record v { status = JobStatus.queued; owner = none })
  succeeds : is_active_status v.status ≡ true → Move resets v (record v { status = succeeded })
  gives_up : is_active_status v.status ≡ true → Move resets v (record v { status = failed })
  is_reset :
      resets v.submission ≡ true
      → Move resets v (record v { status = JobStatus.queued; owner = none; attempts = 0 })

pub data Moves (resets : ℕ → Bool) (v : View) : View → Type 0 where
  stays : Moves resets v v
  moves : {w x : View} → Moves resets v w → Move resets w x → Moves resets v x

pub Move-Moves : {resets : ℕ → Bool} {v w : View} → Move resets v w → Moves resets v w
Move-Moves m = moves stays m

Moves-trans :
    (resets : ℕ → Bool) {v w x : View} → Moves resets v w → Moves resets w x → Moves resets v x
Moves-trans resets h stays = h
Moves-trans resets h (moves k m) = moves (Moves-trans resets h k) m

module _ {a b : ℕ → Bool} (more : (k : ℕ) → a k ≡ true → b k ≡ true) where
  Move-weaken : {v w : View} → Move a v w → Move b v w
  Move-weaken (is_taken judge q) = is_taken judge q
  Move-weaken (begins c) = begins c
  Move-weaken (returns c l) = returns c l
  Move-weaken (succeeds c) = succeeds c
  Move-weaken (gives_up c) = gives_up c
  Move-weaken {v} (is_reset r) = is_reset (more v.submission r)

  Moves-weaken : {v w : View} → Moves a v w → Moves b v w
  Moves-weaken stays = stays
  Moves-weaken (moves h m) = moves (Moves-weaken h) (Move-weaken m)

-- No rejudge takes place.
abbrev pub no_reset : ℕ → Bool
no_reset k = false

-- Each job of the first database is in the second one, where its moves have led it.
abbrev pub Evolves : (ℕ → Bool) → Store → Store → Type 0
Evolves resets db new =
    (k : ℕ) (j : JudgeJob)
    → find_job k db ≡ some j
    → (j' : JudgeJob) × (find_job k new ≡ some j') × Moves resets (view j) (view j')

-- No two jobs have one id.
abbrev pub AreDistinct : List JudgeJob → Type 0
AreDistinct [] = Unit
AreDistinct (j ∷ js) = All (λ r. (r.id == j.id) ≡ false) js × AreDistinct js

abbrev pub AreBelow : ℕ → List JudgeJob → Type 0
AreBelow n js = All (λ j. j.id < n) js

abbrev pub IsKeyed : ℕ → List JudgeJob → Type 0
IsKeyed n js = AreBelow n js × AreDistinct js

-- The keys of the jobs are as the database gives them out.
abbrev pub Keyed : Store → Type 0
Keyed db = IsKeyed db.next_id db.jobs

abbrev pub Follows : (ℕ → Bool) → Store → Store → Type 0
Follows resets db new = Keyed new × Evolves resets db new

pub Follows-refl : (resets : ℕ → Bool) (db : Store) → Keyed db → Follows resets db db
Follows-refl resets db h = (h, λ k j e. (j, e, stays))

pub Follows-trans :
    (resets : ℕ → Bool) (a b c : Store)
    → Follows resets a b
    → (Keyed b → Follows resets b c)
    → Follows resets a c
Follows-trans resets a b c h next =
    let (keyed, later) = next h.0 in
    (
      keyed,
      λ k j e.
          let (j', found, m) = h.1 k j e in
          let (j'', found', m') = later k j' found in (j'', found', Moves-trans resets m m'),
    )

pub Follows-weaken :
    (a b : ℕ → Bool) (db new : Store)
    → ((k : ℕ) → a k ≡ true → b k ≡ true)
    → Follows a db new
    → Follows b db new
Follows-weaken a b db new more h =
    (h.0, λ k j e. let (j', found, m) = h.1 k j e in (j', found, Moves-weaken more m))

AreDistinct-update_where :
    (q : JudgeJob → Bool) (f : JudgeJob → JudgeJob) (js : List JudgeJob)
    → ((r : JudgeJob) → q r ≡ true → (f r).id ≡ r.id)
    → AreDistinct js
    → AreDistinct (update_where q f js)
AreDistinct-update_where q f [] keeps h = tt
AreDistinct-update_where q f (j ∷ js) keeps h = (
  subst (λ i. All (λ r. (r.id == i) ≡ false) (update_where q f js)) (sym (kept (q j) refl))
      (All-update_where (λ r. (r.id == j.id) ≡ false) q f
        (λ a t e. ap (λ i. i == j.id) (keeps a t) ∙ e) js h.0),
  AreDistinct-update_where q f js keeps h.1,
)
  where
    kept : (b : Bool) → q j ≡ b → (if b then f j else j).id ≡ j.id
    kept true t = keeps j t
    kept false t = refl

pub IsKeyed-update_where :
    (n : ℕ) (q : JudgeJob → Bool) (f : JudgeJob → JudgeJob) (js : List JudgeJob)
    → ((r : JudgeJob) → q r ≡ true → (f r).id ≡ r.id)
    → IsKeyed n js
    → IsKeyed n (update_where q f js)
IsKeyed-update_where n q f js keeps h = (
  All-update_where (λ j. j.id < n) q f (λ a t lt. subst (λ i. i < n) (sym (keeps a t)) lt) js h.0,
  AreDistinct-update_where q f js keeps h.1,
)

-- Every row is found by its own key.
pub AreDistinct-found :
    (js : List JudgeJob)
    → AreDistinct js
    → All (λ j. first (select (λ r. r.id == j.id) js) ≡ some j) js
AreDistinct-found [] h = tt
AreDistinct-found (j ∷ js) h =
    (rw ((==_iff j.id j.id).1 refl) refl, behind js js h.0 (AreDistinct-found js h.1))
  where
    behind :
        (all rows : List JudgeJob)
        → All (λ r. (r.id == j.id) ≡ false) rows
        → All (λ i. first (select (λ r. r.id == i.id) all) ≡ some i) rows
        → All (λ i. first (select (λ r. r.id == i.id) (j ∷ all)) ≡ some i) rows
    behind all [] others found = tt
    behind all (r ∷ rs) others found =
        let other : (j.id == r.id) ≡ false = ground (arith, others.0) in
        (rw other (found.0), behind all rs others.1 found.1)

-- What is saved in place of a job is found instead of it, and nothing else changes.
pub find_job-save_job :
    (k : ℕ) (m : JudgeJob) (db : Store) {j : JudgeJob}
    → (k == m.id) ≡ false
    → find_job k db ≡ some j
    → find_job k (save_job m db) ≡ some j
find_job-save_job k m db {j} other e =
    let is_k : j.id ≡ k = (==_iff j.id k).0 (first-passes (λ r. r.id == k) db.jobs e) in
    unchanged_row db.jobs e
  where
    unchanged_row :
        (js : List JudgeJob)
        → first (select (λ r. r.id == k) js) ≡ some j
        → first (select (λ r. r.id == k) (update_where (λ r. r.id == m.id) (λ _. m) js)) ≡ some j
    unchanged_row [] e = cc
    unchanged_row (x ∷ xs) e = elim (Bool-cases (x.id == m.id)) [
      | inl t ↦
          let away : (m.id == k) ≡ false = ground arith in
          let skipped : (x.id == k) ≡ false = ground arith in
          rw (t, away) (unchanged_row xs (rw skipped at e))
      | inr f ↦ elim (Bool-cases (x.id == k)) [
        | inl here ↦ rw (f, here) (rw here at e)
        | inr there ↦ rw (f, there) (unchanged_row xs (rw there at e))
      ]
    ]

pub saved-Follows :
    (resets : ℕ → Bool) (j m : JudgeJob) (db new : Store)
    → Keyed db
    → find_job m.id db ≡ some j
    → Moves resets (view j) (view m)
    → new.jobs ≡ (save_job m db).jobs
    → new.next_id ≡ db.next_id
    → Follows resets db new
saved-Follows resets j m db new h found moved jobs next = (
  subst (λ (n : ℕ). IsKeyed n new.jobs) (sym next)
      (subst (IsKeyed db.next_id) (sym jobs) (
        IsKeyed-update_where db.next_id (λ r. r.id == m.id) (λ _. m) db.jobs
          (λ r t. sym ((==_iff r.id m.id).0 t)) h)),
  λ k i e. elim (Bool-cases (k == m.id)) [
    | inl t ↦
        let is : k ≡ m.id = (==_iff k m.id).0 t in
        let own : some i ≡ some j = sym e ∙ (ap (λ k. find_job k db) is ∙ found) in
        (
          m,
          subst (λ k. find_job k new ≡ some m) (sym is)
              (ap (λ js. first (select (λ r. r.id == m.id) js)) jobs
                ∙ first-update_where (λ r. r.id == m.id) m db.jobs ((==_iff m.id m.id).1 refl)
                    found),
          subst (λ (r : JudgeJob). Moves resets (view r) (view m)) (sym (same own)) moved,
        )
    | inr f ↦ (
      i,
      ap (λ js. first (select (λ r. r.id == k) js)) jobs ∙ find_job-save_job k m db f e,
      stays,
    )
  ],
)
  where
    same : {a b : JudgeJob} → some a ≡ some b → a ≡ b
    same e = cc

-- A new job gets a new key.
pub added-Follows :
    (resets : ℕ → Bool) (m : JudgeJob) (db new : Store)
    → Keyed db
    → db.next_id ≤ m.id
    → m.id < new.next_id
    → new.jobs ≡ m ∷ db.jobs
    → Follows resets db new
added-Follows resets m db new h above below jobs = (
  subst (IsKeyed new.next_id) (sym jobs) (
    (below, All-weaken (λ j lt. omega (arith, lt, above, below)) db.jobs h.0),
    (All-weaken (λ j lt. ground (arith, lt, above)) db.jobs h.0, h.1),
  ),
  λ k j e.
      let lt : k < db.next_id = found_below db.jobs k j h.0 e in
      let other : (m.id == k) ≡ false = ground arith in
      (j, ap (λ js. first (select (λ r. r.id == k) js)) jobs ∙ rw other e, stays),
)
  where
    found_below :
        (js : List JudgeJob) (k : ℕ) (j : JudgeJob)
        → AreBelow db.next_id js
        → first (select (λ r. r.id == k) js) ≡ some j
        → k < db.next_id
    found_below [] k j h e = cc
    found_below (x ∷ xs) k j h e = elim (Bool-cases (x.id == k)) [
      | inl t ↦ ground (arith, h.0)
      | inr f ↦ found_below xs k j h.1 (rw f at e)
    ]
