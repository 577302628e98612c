-- ===== src/Judge/Retries.antt =====
-- A worker may repeat a callback whose answer was lost (judge_result_service.py, `finish` and `fail`).
use judgeloom_core.Base.{
  ℕ, ◌≡◌, refl, sym, ap, ◌∙◌, subst, inl, inr, true, Option, none, some, List, arith, ◌==◌, is_id,
  select, first, first-passes, first-update_where, update_where, ==_iff, if-eq-ok, ok, >>=-eq-ok,
  >>-eq-ok, ok-injective, String,
}
use judgeloom_core.Models.{
  CaseRow, Package, is_run, JudgeJob, Submission, Store, is_succeeded, find_job, find_submission,
  save_job, save_submission,
}
use judgeloom_core.Judge.Leases.{assert_owned}
use judgeloom_core.Judge.Callbacks.{
  or_not_found-eq-ok, lock_job, submission_of, other_judge, run_result, last_row, score_submission,
  judged, graded, ordered_rows, finished_job, finished_store, finish_locked, finish,
}
use judgeloom_core.Judge.Refresh.{refresh_contest_score-keeps}
use judgeloom_core.Judge.Ownership.{assert_owned-Holds, other_judge-owner}

-- The row that a job is saved to is the one that is found again.
find_job-saved :
    (k : ℕ) (j m : JudgeJob) (db new : Store)
    → find_job k db ≡ some j
    → m.id ≡ j.id
    → new.jobs ≡ (save_job m db).jobs
    → find_job k new ≡ some m
find_job-saved k j m db new found same jobs =
    let here : j.id ≡ k = (==_iff j.id k).0 (first-passes (λ r. r.id == k) db.jobs found) in
    let same_k : m.id ≡ k = same ∙ here in
    subst (λ k. find_job k new ≡ some m) same_k
      (ap (λ js. first (select (λ r. r.id == m.id) js)) jobs
        ∙ first-update_where (λ r. r.id == m.id) m db.jobs (ground arith)
            (subst (λ k. find_job k db ≡ some j) (sym same_k) found))

find_submission-saved :
    (k : ℕ) (s m : Submission) (db new : Store)
    → find_submission k db ≡ some s
    → m.id ≡ s.id
    → new.submissions ≡ (save_submission m db).submissions
    → find_submission k new ≡ some m
find_submission-saved k s m db new found same rows =
    let here : s.id ≡ k = (==_iff s.id k).0 (first-passes (λ r. r.id == k) db.submissions found) in
    let same_k : m.id ≡ k = same ∙ here in
    subst (λ k. find_submission k new ≡ some m) same_k
      (ap (λ js. first (select (λ r. r.id == m.id) js)) rows
        ∙ first-update_where (λ r. r.id == m.id) m db.submissions (ground arith)
            (subst (λ k. find_submission k db ≡ some s) (sym same_k) found))

-- A job that succeeded, in a database that has its submission.
pub record Succeeded (job judge : ℕ) (db : Store) : Type 0 where
  pub done_job : JudgeJob
  pub submission : Submission
  pub job_found : find_job job db ≡ some done_job
  pub submission_found : find_submission done_job.submission_id db ≡ some submission
  pub done : is_succeeded done_job.status ≡ true
  pub owner : is_id done_job.claimed_by judge ≡ true

finish-Succeeded :
    (job judge now : ℕ) (message : String) (db : Store)
    → Succeeded job judge db
    → finish job judge now message db ≡ ok db
unfolding finish finish_locked
finish-Succeeded job judge now message db h =
    rw (h.job_found, h.submission_found, h.done, h.owner) refl

run_result-id : (o : Option CaseRow) (s : Submission) → (run_result o s).id ≡ s.id
run_result-id none s = refl
run_result-id (some r) s = refl

score_submission-id :
    (o : Option Package) (rows : List CaseRow) (s s' : Submission)
    → score_submission o rows s ≡ ok s'
    → s'.id ≡ s.id
score_submission-id none rows s s' e = cc
score_submission-id (some p) rows s s' e = ap (λ s. s.id) (sym (ok-injective _ _ e))

graded-id :
    (o : Option Package) (rows : List CaseRow) (s s' : Submission)
    → graded o rows s ≡ ok s'
    → s'.id ≡ s.id
unfolding graded
graded-id o rows s s' e = elim (if-eq-ok (is_run s.mode) _ _ e) [
  | inl (_, h) ↦ ap (λ s. s.id) (sym (ok-injective _ _ h)) ∙ run_result-id (last_row rows) s
  | inr (_, h) ↦ score_submission-id o rows s s' h
]

finished_store-Succeeded :
    (job judge now : ℕ) (message : String) (j : JudgeJob) (s s' : Submission) (db : Store)
    → find_job job db ≡ some j
    → find_submission j.submission_id db ≡ some s
    → is_id j.claimed_by judge ≡ true
    → s'.id ≡ s.id
    → Succeeded job judge (finished_store judge now message j db s')
unfolding finished_store
finished_store-Succeeded job judge now message j s s' db found with_s owner same =
    let stamped = judged judge now message s' in
    let saved = save_submission stamped db in
    record {
      done_job = finished_job now j;
      submission = stamped;
      job_found =
          find_job-saved job j (finished_job now j) db (finished_store judge now message j db s')
            found refl
            (ap (update_where (λ r. r.id == j.id) (λ _. finished_job now j))
              (refresh_contest_score-keeps (λ d. d.jobs) (λ ps d. refl) stamped saved));
      submission_found =
          find_submission-saved j.submission_id s stamped db
            (finished_store judge now message j db s') with_s same
            (refresh_contest_score-keeps (λ d. d.submissions) (λ ps d. refl) stamped saved);
      done = refl;
      owner = owner;
    }

finish_locked-Succeeded :
    (job judge now : ℕ) (message : String) (j : JudgeJob) (db new : Store)
    → find_job job db ≡ some j
    → finish_locked judge now message j db ≡ ok new
    → Succeeded job judge new
unfolding finish_locked
finish_locked-Succeeded job judge now message j db new found e =
    let (s, looked_up, rest) = >>=-eq-ok (submission_of j db) _ e in
    let with_s = or_not_found-eq-ok (find_submission j.submission_id db) _ looked_up in
    elim (if-eq-ok (is_succeeded j.status) _ _ rest) [
      | inl (done, repeated) ↦
          let (owned, same) = >>-eq-ok (other_judge j judge) _ repeated in
          subst (Succeeded job judge) (ok-injective _ _ same) (record {
            done_job = j;
            submission = s;
            job_found = found;
            submission_found = with_s;
            done = done;
            owner = other_judge-owner j judge owned;
          })
      | inr (_, checked) ↦
          let (owned, marked) = >>-eq-ok (assert_owned j judge now) _ checked in
          let (s', scored, done) =
            >>=-eq-ok (graded j.pack (ordered_rows s.id db) s)
              (λ g. ok (finished_store judge now message j db g)) marked in
          subst (Succeeded job judge) (ok-injective _ _ done) (
            finished_store-Succeeded job judge now message j s s' db found with_s
              (assert_owned-Holds judge now j owned).owner
              (graded-id j.pack (ordered_rows s.id db) s s' scored))
    ]

-- A repeated `finish` of the same judge succeeds and changes nothing, at whatever later time and
-- with whatever message: no score is computed twice and no event goes out twice.
pub finish-idempotent :
    (job judge now later : ℕ) (message other_message : String) (db new : Store)
    → finish job judge now message db ≡ ok new
    → finish job judge later other_message new ≡ ok new
unfolding finish
finish-idempotent job judge now later message other_message db new e =
    let (j, locked, called) =
      >>=-eq-ok (lock_job job db) (λ j. finish_locked judge now message j db) e in
    finish-Succeeded job judge later other_message new (
      finish_locked-Succeeded job judge now message j db new
        (or_not_found-eq-ok (find_job job db) _ locked) called)
