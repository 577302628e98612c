-- ===== src/Models/Database.antt =====
-- The database, as the tables that the services read and write, and the events published.
-- `next_id` is the sequence that new rows take their primary keys from.
use judgeloom_core.Base.{ℕ, String, Option, List, [], ◌∷◌, ◌++◌, ◌==◌, first, select, update_where}
use judgeloom_core.Models.Judging.{Submission, SubmissionStatus, Verdict, CaseRow, JudgeJob}
use judgeloom_core.Models.Problems.{Problem}
use judgeloom_core.Models.Contests.{Contest, ContestProblem, Participation}

-- core/events.py: the events of the judging pipeline, with the fields of their payloads that
-- describe the submission.
pub data Event : Type 0 where
  submission_status : ℕ → SubmissionStatus → Event
  submission_case : ℕ → ℕ → ℕ → ℕ → Event
  submission_finished : ℕ → SubmissionStatus → Option Verdict → Event
  submission_judging : ℕ → ℕ → Verdict → ℕ → ℕ → ℕ → Event
  submission_judged : ℕ → SubmissionStatus → Option Verdict → ℕ → Event
  contest_participation_joined : ℕ → ℕ → ℕ → Event
  contest_started contest_ended contest_ranking_updated : ℕ → Event

pub record Store : Type 0 where
  pub next_id : ℕ
  pub problems : List Problem
  pub submissions : List Submission
  pub sources : List (ℕ × String)
  pub case_rows : List CaseRow
  pub jobs : List JudgeJob
  pub contests : List Contest
  pub contest_problems : List ContestProblem
  pub participations : List Participation
  pub events : List Event

-- `objects.filter(pk=…).first()`
abbrev pub find_problem : ℕ → Store → Option Problem
find_problem k db = first (select (λ p. p.id == k) db.problems)

abbrev pub find_submission : ℕ → Store → Option Submission
find_submission k db = first (select (λ s. s.id == k) db.submissions)

abbrev pub find_job : ℕ → Store → Option JudgeJob
find_job k db = first (select (λ j. j.id == k) db.jobs)

abbrev pub find_contest : ℕ → Store → Option Contest
find_contest k db = first (select (λ c. c.id == k) db.contests)

abbrev pub find_participation : ℕ → Store → Option Participation
find_participation k db = first (select (λ p. p.id == k) db.participations)

-- `row.save()`: the row with the id gets the new values.
abbrev pub save_submission : Submission → Store → Store
save_submission s db = record db {
  submissions = update_where (λ r. r.id == s.id) (λ _. s) db.submissions;
}

abbrev pub save_job : JudgeJob → Store → Store
save_job j db = record db { jobs = update_where (λ r. r.id == j.id) (λ _. j) db.jobs }

abbrev pub save_contest : Contest → Store → Store
save_contest c db = record db { contests = update_where (λ r. r.id == c.id) (λ _. c) db.contests }

abbrev pub save_participation : Participation → Store → Store
save_participation p db = record db {
  participations = update_where (λ r. r.id == p.id) (λ _. p) db.participations;
}

-- `transaction.on_commit(publish)`: the event goes out when the transaction has committed.
abbrev pub publish : Event → Store → Store
publish e db = record db { events = db.events ++ (e ∷ []) }
