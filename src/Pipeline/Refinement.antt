-- ===== src/Pipeline/Refinement.antt =====
-- The judging pipeline refines the machine of one job (Judge.Machine): each request moves the jobs
-- of the table as the machine allows.
use judgeloom_core.Base.{
  any, ◌||◌, first-passes, ==_iff, ℕ, ◌≡◌, refl, ap, subst, arith, ◌==◌, Bool, true, false, ◌&&◌,
  is_id, Option, none, some, List, [], ◌∷◌, if◌then◌else◌, select, All-select, select-holds,
  first-holds, row-update_where, ok, ◌>>=◌, >>=-eq-ok, >>-eq-ok, ok-injective,
}
use judgeloom_core.Base.Sort.{sort_by, All-sort_by}
use judgeloom_core.Models.{
  JudgeJob, JobConfig, Package, Submission, Problem, Store, is_active_status, save_job,
  save_submission, active_package,
}
use judgeloom_core.Judge.Leases.{lease_until}
use judgeloom_core.Judge.Gateway.{
  expire_stale_jobs, queue_order, is_eligible, next_job, claimed_job, claim, claim_job,
  requeued_submission, delete_case_rows,
}
use judgeloom_core.Judge.Endpoints.{heartbeat}
use judgeloom_core.Judge.Machine.{
  Follows-weaken, no_reset, view, is_taken, is_reset, Moves, stays, Move-Moves, Keyed, Follows,
  Follows-refl, Follows-trans, IsKeyed-update_where, saved-Follows, added-Follows,
}
use judgeloom_core.Judge.Calls.{call-Follows}
use judgeloom_core.Submissions.Create.{
  Settings, Request, check_request, new_job, insert_submission, create_submission,
}
use judgeloom_core.Submissions.Rejudge.{
  job_of, rejudge_package, reset_job, config_of, queue_job, rejudged, rejudge_submission,
  rejudge_all, rejudge_problem, cleanup_stale_sessions, is_in_flight, judged_offline,
}
use judgeloom_core.Pipeline.Invariant.{rejudge_submission-eq-ok, counted}
use judgeloom_core.Pipeline.Steps.{
  Step, expires, claims, beats, calls, submits, rejudges, rejudges_problem, cleans, Reach, here,
}
use judgeloom_core.Pipeline.Expiry.{IsFound, Keyed-IsFound, expire_stale_jobs-Follows}

claim_job-Follows :
    (locked : List ℕ) (judge : ℕ) (languages : List ℕ) (now : ℕ) (db : Store)
    → Keyed db
    → Follows no_reset db (claim_job locked judge languages now db).0
unfolding claim_job next_job
claim_job-Follows locked judge languages now db h =
    let fresh = (expire_stale_jobs locked now db).0 in
    Follows-trans no_reset db fresh (claim judge now (next_job locked languages fresh) fresh).0
      (expire_stale_jobs-Follows locked now db h)
      (λ keyed. taken fresh keyed (next_job locked languages fresh) (λ j e.
        first-holds (λ a. IsFound fresh a × (is_eligible locked languages a ≡ true))
          (sort_by queue_order (select (is_eligible locked languages) fresh.jobs))
          (All-sort_by queue_order (λ a. IsFound fresh a × (is_eligible locked languages a ≡ true))
            _
            (select-holds (IsFound fresh) (is_eligible locked languages) fresh.jobs
              (Keyed-IsFound fresh keyed)))
          e))
  where
    taken :
        (fresh : Store)
        → Keyed fresh
        → (o : Option JudgeJob)
        → ((j : JudgeJob) → o ≡ some j → IsFound fresh j × (is_eligible locked languages j ≡ true))
        → Follows no_reset fresh (claim judge now o fresh).0
    taken fresh keyed none chosen = Follows-refl no_reset fresh keyed
    taken fresh keyed (some j) chosen =
        let (found, eligible) = chosen j refl in
        saved-Follows no_reset j (claimed_job judge now j) fresh
          (save_job (claimed_job judge now j) fresh) keyed found
          (Move-Moves (is_taken judge (ground arith))) refl refl

heartbeat-Follows :
    (judge now : ℕ) (db : Store) → Keyed db → Follows no_reset db (heartbeat judge now db)
unfolding heartbeat
heartbeat-Follows judge now db h = (
  IsKeyed-update_where db.next_id test extend db.jobs (λ r t. refl) h,
  λ k j e. (
    (if test j then extend j else j),
    row-update_where (λ r. r.id) k test extend db.jobs (λ r. refl) e,
    same_view (test j) j,
  ),
)
  where
    test : JudgeJob → Bool
    test j = is_id j.claimed_by judge && is_active_status j.status

    extend : JudgeJob → JudgeJob
    extend j = record j { lease_expires_at = lease_until now }

    same_view :
        (b : Bool) (j : JudgeJob) → Moves no_reset (view j) (view (if b then extend j else j))
    same_view true j = stays
    same_view false j = stays

create_submission-Follows :
    (settings : Settings) (q : Request) (now : ℕ) (db new : Store)
    → create_submission settings q now db ≡ ok new
    → Keyed db
    → Follows no_reset db new
unfolding create_submission insert_submission new_job
create_submission-Follows settings q now db new e h =
    let (_, inserted) = >>-eq-ok (check_request settings q now db) _ e in
    let same = ok-injective _ _ inserted in
    subst (Follows no_reset db) same (
      added-Follows no_reset _ db (insert_submission q (active_package q.problem) now db) h
        (omega arith) (omega arith) refl)

-- A rejudge resets the job of its submission.
abbrev one : ℕ → ℕ → Bool
one sid k = k == sid

-- The submissions of a batch.
abbrev pub each : List Submission → ℕ → Bool
each ss k = any (λ s. k == s.id) ss

queue_job-Follows :
    (o : Option JudgeJob) (pack : Option Package) (config : JobConfig) (s : Submission) (now : ℕ)
    (db : Store)
    → ((j : JudgeJob) → o ≡ some j → IsFound db j × ((j.submission_id == s.id) ≡ true))
    → Keyed db
    → Follows (one s.id) db (queue_job o pack config s now db)
unfolding new_job
queue_job-Follows none pack config s now db found h =
    added-Follows (one s.id)
      (reset_job config (new_job db.next_id s.id pack s.language_id config now)) db
      (queue_job none pack config s now db) h (omega arith) (omega arith) refl
queue_job-Follows (some j) pack config s now db found h =
    saved-Follows (one s.id) j (reset_job config j) db (save_job (reset_job config j) db) h
      (found j refl).0 (Move-Moves (is_reset (found j refl).1)) refl refl

rejudged-Follows :
    (s : Submission) (p : Problem) (now : ℕ) (db : Store)
    → Keyed db
    → Follows (one s.id) db (rejudged s p now db)
unfolding rejudged
rejudged-Follows s p now db h =
    let pack = rejudge_package (job_of s.id db) p in
    queue_job-Follows (job_of s.id db) pack (config_of db p pack s) s now
      (delete_case_rows s.id (save_submission (requeued_submission s) db))
      (λ j e. (
        first-holds (IsFound db) (select (λ j. j.submission_id == s.id) db.jobs)
            (All-select (IsFound db) (λ j. j.submission_id == s.id) db.jobs (Keyed-IsFound db h)) e,
        first-passes (λ j. j.submission_id == s.id) db.jobs e,
      ))
      h

rejudge_submission-Follows :
    (sid now : ℕ) (db new : Store)
    → rejudge_submission sid now db ≡ ok new
    → Keyed db
    → Follows (one sid) db new
rejudge_submission-Follows sid now db new e h =
    let (s, p, found, is) = rejudge_submission-eq-ok sid now db new e in
    let own : s.id ≡ sid =
      (==_iff s.id sid).0 (first-passes (λ r. r.id == sid) db.submissions found) in
    subst (λ k. Follows (one k) db new) own
      (subst (Follows (one s.id) db) is (rejudged-Follows s p now db h))

rejudge_all-Follows :
    (ss : List Submission) (now : ℕ) (db new : Store)
    → rejudge_all ss now db ≡ ok new
    → Keyed db
    → Follows (each ss) db new
unfolding rejudge_all
rejudge_all-Follows [] now db new e h =
    subst (Follows (each []) db) (ok-injective _ _ e) (Follows-refl (each []) db h)
rejudge_all-Follows (s ∷ ss) now db new e h =
    let (mid, first_one, rest) =
      >>=-eq-ok (rejudge_submission s.id now db) (rejudge_all ss now) e in
    Follows-trans (each (s ∷ ss)) db mid new
      (Follows-weaken (one s.id) (each (s ∷ ss)) db mid (λ k t. ground arith)
        (rejudge_submission-Follows s.id now db mid first_one h))
      (λ keyed.
        Follows-weaken (each ss) (each (s ∷ ss)) mid new (λ k t. ground arith)
          (rejudge_all-Follows ss now mid new rest keyed))

batch-Follows :
    (ss : List Submission) (now : ℕ) (db new : Store) {count : ℕ}
    → (rejudge_all ss now db >>= counted ss) ≡ ok (new, count)
    → Keyed db
    → Follows (each ss) db new
batch-Follows ss now db new e h =
    let (db', all, done) = >>=-eq-ok (rejudge_all ss now db) (counted ss) e in
    subst (Follows (each ss) db) (ap (λ r. r.0) (ok-injective _ _ done))
      (rejudge_all-Follows ss now db db' all h)

-- The submissions that a request rejudges.
abbrev pub rejudged_by : {db new : Store} → Step db new → ℕ → Bool
rejudged_by (rejudges sid now e) = one sid
rejudged_by (rejudges_problem problem now count {db} e) =
    each (select (λ s. s.problem_id == problem) db.submissions)
rejudged_by (cleans offline now count {db} e) =
    each (select (λ s. is_in_flight s.status && judged_offline offline s.judged_on) db.submissions)
rejudged_by _ = no_reset

Step-Follows : {db new : Store} (step : Step db new) → Keyed db → Follows (rejudged_by step) db new
unfolding rejudge_problem cleanup_stale_sessions
Step-Follows (expires locked now {db}) h = expire_stale_jobs-Follows locked now db h
Step-Follows (claims locked judge languages now {db}) h =
    claim_job-Follows locked judge languages now db h
Step-Follows (beats judge now {db}) h = heartbeat-Follows judge now db h
Step-Follows (calls job judge now c {db} {new} e) h = call-Follows job judge now c db new e h
Step-Follows (submits settings q now {db} {new} e) h =
    create_submission-Follows settings q now db new e h
Step-Follows (rejudges sid now {db} {new} e) h = rejudge_submission-Follows sid now db new e h
Step-Follows (rejudges_problem problem now count {db} {new} e) h = batch-Follows _ now db new e h
Step-Follows (cleans offline now count {db} {new} e) h = batch-Follows _ now db new e h

-- The submissions that a sequence of requests rejudges.
abbrev pub rejudged_in : {db new : Store} → Reach db new → ℕ → Bool
rejudged_in here k = false
rejudged_in (Reach.then before step) k = rejudged_in before k || rejudged_by step k

-- From a database whose jobs have different ids, below the next one to be given out, and whatever
-- requests come, in any order: this still holds, each job stays in the table under its id, and moves
-- of the machine lead from its state at the start to its state at the end. A job is taken from the
-- queue, which counts as an attempt, begins, goes back to the queue with its attempts counted and
-- one left, succeeds, is given up, or is reset, with no attempt counted, if one of the requests
-- rejudges its submission.
pub Reach-Follows :
    {db new : Store} (requests : Reach db new) → Keyed db → Follows (rejudged_in requests) db new
Reach-Follows {db} here h = Follows-refl _ db h
Reach-Follows {db} {new} (Reach.then {db = mid} before step) h =
    let all = rejudged_in (Reach.then before step) in
    Follows-trans all db mid new
      (Follows-weaken (rejudged_in before) all db mid (λ k t. ground arith)
        (Reach-Follows before h))
      (λ keyed.
        Follows-weaken (rejudged_by step) all mid new (λ k t. ground arith)
          (Step-Follows step keyed))
