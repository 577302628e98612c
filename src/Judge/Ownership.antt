-- ===== src/Judge/Ownership.antt =====
-- Only the judge that holds the lease moves a job, and the callbacks keep every job sound.
use judgeloom_core.Base.{
  ℕ, ◌≡◌, refl, sym, ap, ◌∙◌, subst, inl, inr, true, false, List, arith, ◌==◌, is_id, update_where,
  All, if-eq-ok, ok, >>=-eq-ok, >>-eq-ok, ok-injective, String, Bool-cases, raise_if-eq-ok,
}
use judgeloom_core.Models.{
  JudgeJob, is_active_status, is_running, is_succeeded, is_failed, Store, Submission, cases_of,
  save_job, save_submission, Reported, is_claimed,
}
use judgeloom_core.Scoring.Cases.{ReportedCase}
use judgeloom_core.Judge.Leases.{assert_owned, lease_over, lease_until}
use judgeloom_core.Judge.Callbacks.{
  other_judge, submission_of, judged, start_locked, recorded, finished_store, failed_store,
  failed_submission, graded, ordered_rows, record_loop, record_cases_locked, finish_locked,
  fail_locked, started, progressed, finished_job, failed_job,
}
use judgeloom_core.Judge.Refresh.{refresh_contest_score-keeps}
use judgeloom_core.Judge.Machine.{
  no_reset, view, Moves, stays, Move-Moves, begins, succeeds, gives_up,
}
use judgeloom_core.Judge.Soundness.{IsSound, JobsAreSound, save_job-JobsAreSound}

-- The caller holds the job, and its lease has not run out.
pub record Holds (judge now : ℕ) (j : JudgeJob) : Type 0 where
  pub owner : is_id j.claimed_by judge ≡ true
  pub lease : lease_over now j.lease_expires_at ≡ false
  pub active : is_active_status j.status ≡ true

pub assert_owned-Holds :
    (judge now : ℕ) (j : JudgeJob) → assert_owned j judge now ≡ ok tt → Holds judge now j
assert_owned-Holds judge now j h = ground arith

-- What a callback that returned has done to the table of jobs: the caller owns the job, and the
-- callback left the database alone, or saved one job in place of the old one, by moves of the job.
pub data Owned (judge : ℕ) (j : JudgeJob) (db new : Store) : Type 0 where
  unchanged : is_id j.claimed_by judge ≡ true → new ≡ db → Owned judge j db new
  saved :
      (moved : JudgeJob)
      → is_id j.claimed_by judge ≡ true
      → moved.id ≡ j.id
      → (IsSound j → IsSound moved)
      → new.jobs ≡ (save_job moved db).jobs
      → new.next_id ≡ db.next_id
      → Moves no_reset (view j) (view moved)
      → Owned judge j db new

pub Owned-owner :
    {judge : ℕ} {j : JudgeJob} {db new : Store}
    → Owned judge j db new
    → is_id j.claimed_by judge ≡ true
Owned-owner (unchanged owner e) = owner
Owned-owner (saved moved owner same keep e _ _) = owner

pub Owned-JobsAreSound :
    {judge : ℕ} {j : JudgeJob} {db new : Store}
    → Owned judge j db new
    → IsSound j
    → JobsAreSound db
    → JobsAreSound new
Owned-JobsAreSound (unchanged owner e) sound h = subst JobsAreSound (sym e) h
Owned-JobsAreSound {db = db} (saved moved owner same keep e _ _) sound h =
    subst (All IsSound) (sym e) (save_job-JobsAreSound moved db (keep sound) h)

pub other_judge-owner :
    (j : JudgeJob) (judge : ℕ) → other_judge j judge ≡ ok tt → is_id j.claimed_by judge ≡ true
other_judge-owner j judge h = ground arith

pub start_locked-Owned :
    (judge now : ℕ) (j : JudgeJob) (db new : Store)
    → start_locked judge now j db ≡ ok new
    → Owned judge j db new
unfolding start_locked
start_locked-Owned judge now j db new e = elim (if-eq-ok (is_running j.status) _ _ e) [
  | inl (_, repeated) ↦
      let (owned, done) = >>-eq-ok (other_judge j judge) _ repeated in
      let owner = other_judge-owner j judge owned in
      saved (record j { lease_expires_at = lease_until now }) owner refl (λ s. ground arith)
        (ap (λ db. db.jobs) (sym (ok-injective _ _ done)))
        (ap (λ db. db.next_id) (sym (ok-injective _ _ done))) stays
  | inr (_, first_start) ↦
      let (checks, done) = >>-eq-ok _ _ first_start in
      let (owned, startable) = >>-eq-ok (assert_owned j judge now) _ checks in
      let holds = assert_owned-Holds judge now j owned in
      saved (started now j) holds.owner refl (λ s. ground arith)
        (ap (λ db. db.jobs) (sym (ok-injective _ _ done)))
        (ap (λ db. db.next_id) (sym (ok-injective _ _ done)))
        (Move-Moves (begins (ground (arith, raise_if-eq-ok _ _ startable))))
]

-- The first report of a job that was not started begins it.
progressed-Moves : (now : ℕ) (j : JudgeJob) → Moves no_reset (view j) (view (progressed now j))
progressed-Moves now j = elim (Bool-cases (is_claimed j.status)) [
  | inl t ↦ rw t (Move-Moves (begins t))
  | inr f ↦ rw f stays
]

pub record_cases_locked-Owned :
    (judge now : ℕ) (reported : List ReportedCase) (j : JudgeJob) (db new : Store)
    → record_cases_locked judge now reported j db ≡ ok new
    → Owned judge j db new
unfolding record_cases_locked
record_cases_locked-Owned judge now reported j db new e =
    let (owned, rest) = >>-eq-ok (assert_owned j judge now) _ e in
    let holds = assert_owned-Holds judge now j owned in
    let (s, _, looped) = >>=-eq-ok (submission_of j db) _ rest in
    let (r, _, done) =
      >>=-eq-ok (record_loop s.id (cases_of j.pack) reported db.case_rows s.current_testcase)
        (λ r. ok (recorded now j s db r)) looped in
    saved (progressed now j) holds.owner refl (λ s. ground arith)
      (ap (λ db. db.jobs) (sym (ok-injective _ _ done)))
      (ap (λ db. db.next_id) (sym (ok-injective _ _ done))) (progressed-Moves now j)

jobs-finished_store :
    (judge now : ℕ) (message : String) (j : JudgeJob) (db : Store) (s : Submission)
    → (finished_store judge now message j db s).jobs ≡ (save_job (finished_job now j) db).jobs
unfolding finished_store
jobs-finished_store judge now message j db s =
    let s' = judged judge now message s in
    ap (update_where (λ r. r.id == j.id) (λ _. finished_job now j))
      (refresh_contest_score-keeps (λ db. db.jobs) (λ ps d. refl) s' (save_submission s' db))

jobs-failed_store :
    (judge now : ℕ) (message : String) (j : JudgeJob) (db : Store) (s : Submission)
    → (failed_store judge now message j db s).jobs ≡ (save_job (failed_job now message j) db).jobs
unfolding failed_store
jobs-failed_store judge now message j db s =
    let s' = judged judge now message s in
    ap (update_where (λ r. r.id == j.id) (λ _. failed_job now message j))
      (refresh_contest_score-keeps (λ db. db.jobs) (λ ps d. refl) s' (save_submission s' db))

next_id-finished_store :
    (judge now : ℕ) (message : String) (j : JudgeJob) (db : Store) (s : Submission)
    → (finished_store judge now message j db s).next_id ≡ db.next_id
unfolding finished_store
next_id-finished_store judge now message j db s =
    let s' = judged judge now message s in
    refresh_contest_score-keeps (λ db. db.next_id) (λ ps d. refl) s' (save_submission s' db)

next_id-failed_store :
    (judge now : ℕ) (message : String) (j : JudgeJob) (db : Store) (s : Submission)
    → (failed_store judge now message j db s).next_id ≡ db.next_id
unfolding failed_store
next_id-failed_store judge now message j db s =
    let s' = judged judge now message s in
    refresh_contest_score-keeps (λ db. db.next_id) (λ ps d. refl) s' (save_submission s' db)

pub finish_locked-Owned :
    (judge now : ℕ) (message : String) (j : JudgeJob) (db new : Store)
    → finish_locked judge now message j db ≡ ok new
    → Owned judge j db new
unfolding finish_locked
finish_locked-Owned judge now message j db new e =
    let (s, _, rest) = >>=-eq-ok (submission_of j db) _ e in
    elim (if-eq-ok (is_succeeded j.status) _ _ rest) [
      | inl (_, repeated) ↦
          let (owned, same) = >>-eq-ok (other_judge j judge) _ repeated in
          unchanged (other_judge-owner j judge owned) (sym (ok-injective _ _ same))
      | inr (_, checked) ↦
          let (owned, marked) = >>-eq-ok (assert_owned j judge now) _ checked in
          let holds = assert_owned-Holds judge now j owned in
          let (s', _, done) =
            >>=-eq-ok (graded j.pack (ordered_rows s.id db) s)
              (λ g. ok (finished_store judge now message j db g)) marked in
          saved (finished_job now j) holds.owner refl (λ s. ground arith)
            (ap (λ db. db.jobs) (sym (ok-injective _ _ done))
              ∙ jobs-finished_store judge now message j db s')
            (ap (λ db. db.next_id) (sym (ok-injective _ _ done))
              ∙ next_id-finished_store judge now message j db s')
            (Move-Moves (succeeds holds.active))
    ]

pub fail_locked-Owned :
    (judge now : ℕ) (reported : Reported) (message : String) (j : JudgeJob) (db new : Store)
    → fail_locked judge now reported message j db ≡ ok new
    → Owned judge j db new
unfolding fail_locked
fail_locked-Owned judge now reported message j db new e =
    let (s, _, rest) = >>=-eq-ok (submission_of j db) _ e in
    elim (if-eq-ok (is_failed j.status) _ _ rest) [
      | inl (_, repeated) ↦
          let (owned, same) = >>-eq-ok (other_judge j judge) _ repeated in
          unchanged (other_judge-owner j judge owned) (sym (ok-injective _ _ same))
      | inr (_, checked) ↦
          let (owned, done) = >>-eq-ok (assert_owned j judge now) _ checked in
          let holds = assert_owned-Holds judge now j owned in
          saved (failed_job now message j) holds.owner refl (λ s. ground arith)
            (ap (λ db. db.jobs) (sym (ok-injective _ _ done))
              ∙ jobs-failed_store judge now message j db (failed_submission reported s))
            (ap (λ db. db.next_id) (sym (ok-injective _ _ done))
              ∙ next_id-failed_store judge now message j db (failed_submission reported s))
            (Move-Moves (gives_up holds.active))
    ]
