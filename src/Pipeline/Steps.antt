-- ===== src/Pipeline/Steps.antt =====
-- The requests to the judging pipeline, as a relation on databases. A request that raises is rolled
-- back, which is no step.
use judgeloom_core.Base.{ℕ, ◌≡◌, List, ok}
use judgeloom_core.Models.{Store}
use judgeloom_core.Judge.Gateway.{expire_stale_jobs, claim_job}
use judgeloom_core.Judge.Endpoints.{heartbeat}
use judgeloom_core.Judge.Calls.{Callback, call}
use judgeloom_core.Submissions.Create.{Settings, Request, create_submission}
use judgeloom_core.Submissions.Rejudge.{rejudge_submission, rejudge_problem, cleanup_stale_sessions}

pub data Step : Store → Store → Type 0 where
  expires : (locked : List ℕ) (now : ℕ) {db : Store} → Step db (expire_stale_jobs locked now db).0
  claims :
      (locked : List ℕ) (judge : ℕ) (languages : List ℕ) (now : ℕ) {db : Store}
      → Step db (claim_job locked judge languages now db).0
  beats : (judge now : ℕ) {db : Store} → Step db (heartbeat judge now db)
  calls :
      (job judge now : ℕ) (c : Callback) {db new : Store}
      → call job judge now c db ≡ ok new
      → Step db new
  submits :
      (settings : Settings) (q : Request) (now : ℕ) {db new : Store}
      → create_submission settings q now db ≡ ok new
      → Step db new
  rejudges : (sid now : ℕ) {db new : Store} → rejudge_submission sid now db ≡ ok new → Step db new
  rejudges_problem :
      (problem now count : ℕ) {db new : Store}
      → rejudge_problem problem now db ≡ ok (new, count)
      → Step db new
  cleans :
      (offline : List ℕ) (now count : ℕ) {db new : Store}
      → cleanup_stale_sessions offline now db ≡ ok (new, count)
      → Step db new

-- The databases that some sequence of requests leads to.
pub data Reach (start : Store) : Store → Type 0 where
  here : Reach start start
  then : {db new : Store} → Reach start db → Step db new → Reach start new
