-- ===== src/Pipeline/Invariant.antt =====
-- Every request of the pipeline keeps the judge jobs sound.
use judgeloom_core.Base.{
  ℕ, ◌≡◌, refl, ap, subst, not, ◌&&◌, ◌==◌, Option, none, some, List, [], ◌∷◌, arith, is_id,
  is_some, select, first-holds, length, All-update_where, All-select, Result, ok, ◌>>=◌, ◌>>◌,
  >>=-eq-ok, >>-eq-ok, ok-injective, raise_if, submission_error,
}
use judgeloom_core.Models.{
  Store, JudgeJob, JobConfig, Package, Submission, Problem, is_active_status, is_run,
  find_submission, find_problem, save_submission,
}
use judgeloom_core.Judge.Leases.{lease_until}
use judgeloom_core.Judge.Gateway.{requeued_submission, delete_case_rows}
use judgeloom_core.Judge.Callbacks.{or_not_found, or_not_found-eq-ok}
use judgeloom_core.Judge.Endpoints.{heartbeat}
use judgeloom_core.Judge.Soundness.{
  IsSound, JobsAreSound, save_job-JobsAreSound, expire_stale_jobs-JobsAreSound,
  claim_job-JobsAreSound,
}
use judgeloom_core.Judge.Calls.{call-JobsAreSound}
use judgeloom_core.Submissions.Create.{
  Settings, Request, check_request, new_job, insert_submission, create_submission,
}
use judgeloom_core.Submissions.Rejudge.{
  job_of, rejudge_package, reset_job, config_of, queue_job, rejudged, rejudge_submission,
  rejudge_all, rejudge_problem, cleanup_stale_sessions,
}
use judgeloom_core.Pipeline.Steps.{
  Step, expires, claims, beats, calls, submits, rejudges, rejudges_problem, cleans, Reach, here,
  then,
}

new_job-IsSound :
    (k sid : ℕ) (pack : Option Package) (language : ℕ) (config : JobConfig) (now : ℕ)
    → IsSound (new_job k sid pack language config now)
unfolding new_job
new_job-IsSound k sid pack language config now = ground arith

reset_job-IsSound : (config : JobConfig) (j : JudgeJob) → IsSound j → IsSound (reset_job config j)
reset_job-IsSound config j s = ground arith

heartbeat-JobsAreSound :
    (judge now : ℕ) (db : Store) → JobsAreSound db → JobsAreSound (heartbeat judge now db)
unfolding heartbeat
heartbeat-JobsAreSound judge now db h =
    All-update_where IsSound (λ j. is_id j.claimed_by judge && is_active_status j.status)
      (λ j. record j { lease_expires_at = lease_until now }) (λ j e s. ground arith) db.jobs h

-- A request that is accepted adds a sound job.
create_submission-JobsAreSound :
    (settings : Settings) (q : Request) (now : ℕ) (db new : Store)
    → JobsAreSound db
    → create_submission settings q now db ≡ ok new
    → JobsAreSound new
unfolding create_submission insert_submission
create_submission-JobsAreSound settings q now db new h e =
    let (_, inserted) = >>-eq-ok (check_request settings q now db) _ e in
    subst JobsAreSound (ok-injective _ _ inserted) (new_job-IsSound _ _ _ _ _ _, h)

queue_job-JobsAreSound :
    (o : Option JudgeJob) (pack : Option Package) (config : JobConfig) (s : Submission) (now : ℕ)
    (db : Store)
    → ((j : JudgeJob) → o ≡ some j → IsSound j)
    → JobsAreSound db
    → JobsAreSound (queue_job o pack config s now db)
queue_job-JobsAreSound none pack config s now db sound h =
    (reset_job-IsSound config _ (new_job-IsSound db.next_id s.id pack s.language_id config now), h)
queue_job-JobsAreSound (some j) pack config s now db sound h =
    save_job-JobsAreSound (reset_job config j) db (reset_job-IsSound config j (sound j refl)) h

rejudged-JobsAreSound :
    (s : Submission) (p : Problem) (now : ℕ) (db : Store)
    → JobsAreSound db
    → JobsAreSound (rejudged s p now db)
unfolding rejudged
rejudged-JobsAreSound s p now db h =
    let pack = rejudge_package (job_of s.id db) p in
    queue_job-JobsAreSound (job_of s.id db) pack (config_of db p pack s) s now
      (delete_case_rows s.id (save_submission (requeued_submission s) db))
      (λ j e.
        first-holds IsSound (select (λ j. j.submission_id == s.id) db.jobs)
          (All-select IsSound (λ j. j.submission_id == s.id) db.jobs h) e)
      h

-- What a rejudge that returned has saved.
pub rejudge_submission-eq-ok :
    (sid now : ℕ) (db new : Store)
    → rejudge_submission sid now db ≡ ok new
    → (s : Submission) × (p : Problem) × (find_submission sid db ≡ some s)
      × (rejudged s p now db ≡ new)
unfolding rejudge_submission
rejudge_submission-eq-ok sid now db new e =
    let (s, found, with_s) =
      >>=-eq-ok (or_not_found (find_submission sid db) "Submission not found.") _ e in
    let (p, _, with_p) =
      >>=-eq-ok (or_not_found (find_problem s.problem_id db) "Problem not found.")
        (λ p.
          raise_if (not (is_some (rejudge_package (job_of s.id db) p)) && not (is_run s.mode))
            (submission_error "No active test data package is available for this problem.")
          >> ok (rejudged s p now db))
        with_s in
    let (_, done) =
      >>-eq-ok
        (raise_if (not (is_some (rejudge_package (job_of s.id db) p)) && not (is_run s.mode))
          (submission_error "No active test data package is available for this problem."))
        (ok (rejudged s p now db)) with_p in
    (
      s,
      p,
      or_not_found-eq-ok (find_submission sid db) "Submission not found." found,
      ok-injective _ _ done,
    )

rejudge_submission-JobsAreSound :
    (sid now : ℕ) (db new : Store)
    → JobsAreSound db
    → rejudge_submission sid now db ≡ ok new
    → JobsAreSound new
rejudge_submission-JobsAreSound sid now db new h e =
    let (s, p, _, is) = rejudge_submission-eq-ok sid now db new e in
    subst JobsAreSound is (rejudged-JobsAreSound s p now db h)

rejudge_all-JobsAreSound :
    (ss : List Submission) (now : ℕ) (db new : Store)
    → JobsAreSound db
    → rejudge_all ss now db ≡ ok new
    → JobsAreSound new
unfolding rejudge_all
rejudge_all-JobsAreSound [] now db new h e = subst JobsAreSound (ok-injective _ _ e) h
rejudge_all-JobsAreSound (s ∷ ss) now db new h e =
    let (mid, one, rest) = >>=-eq-ok (rejudge_submission s.id now db) (rejudge_all ss now) e in
    rejudge_all-JobsAreSound ss now mid new (rejudge_submission-JobsAreSound s.id now db mid h one)
      rest

abbrev pub counted : List Submission → Store → Result (Store × ℕ)
counted ss db = ok (db, length ss)

-- A batch of rejudged submissions, with the count that it returns.
batch-JobsAreSound :
    (ss : List Submission) (now : ℕ) (db new : Store) {count : ℕ}
    → JobsAreSound db
    → (rejudge_all ss now db >>= counted ss) ≡ ok (new, count)
    → JobsAreSound new
batch-JobsAreSound ss now db new h e =
    let (db', all, done) = >>=-eq-ok (rejudge_all ss now db) (counted ss) e in
    subst JobsAreSound (ap (λ r. r.0) (ok-injective _ _ done))
      (rejudge_all-JobsAreSound ss now db db' h all)

-- Every request of the pipeline keeps all judge jobs sound: claims, callbacks, expiry, heartbeats,
-- new submissions, and rejudging.
pub Step-JobsAreSound : {db new : Store} → Step db new → JobsAreSound db → JobsAreSound new
unfolding rejudge_problem cleanup_stale_sessions
Step-JobsAreSound (expires locked now {db}) h = expire_stale_jobs-JobsAreSound locked now db h
Step-JobsAreSound (claims locked judge languages now {db}) h =
    claim_job-JobsAreSound locked judge languages now db h
Step-JobsAreSound (beats judge now {db}) h = heartbeat-JobsAreSound judge now db h
Step-JobsAreSound (calls job judge now c {db} {new} e) h =
    call-JobsAreSound job judge now c db new h e
Step-JobsAreSound (submits settings q now {db} {new} e) h =
    create_submission-JobsAreSound settings q now db new h e
Step-JobsAreSound (rejudges sid now {db} {new} e) h =
    rejudge_submission-JobsAreSound sid now db new h e
Step-JobsAreSound (rejudges_problem problem now count {db} {new} e) h =
    batch-JobsAreSound _ now db new h e
Step-JobsAreSound (cleans offline now count {db} {new} e) h = batch-JobsAreSound _ now db new h e

-- After any sequence of requests to a database whose jobs are sound, they are sound: no job counts
-- more attempts than its limit, a queued job is free and has an attempt left, an active one
-- has an owner and a lease, and a finished one has released its lease.
pub Reach-JobsAreSound : {db new : Store} → Reach db new → JobsAreSound db → JobsAreSound new
Reach-JobsAreSound here h = h
Reach-JobsAreSound (then before step) h = Step-JobsAreSound step (Reach-JobsAreSound before h)
