-- ===== src/Tests/Judging.antt =====
-- The judging of one submission from its creation to its verdict.
use judgeloom_core.Base.{
  ℕ, ◌≡◌, refl, true, false, Option, none, some, List, [], ◌∷◌, All, Result, ok, err, is_id, arith,
  is_some,
}
use judgeloom_core.Models.{
  Store, JudgeJob, JobStatus, Submission, SubmissionStatus, Verdict, ac, whole, find_job,
  find_submission, find_participation, CaseRow, Calculation, FormatData, find_contest,
  save_submission,
}
use judgeloom_core.Scoring.Cases.{ReportedCase}
use judgeloom_core.Formats.Registry.{icpc, get_format, calculate_participation}
use judgeloom_core.Ranking.{problems_of, apply_calculation}
use judgeloom_core.Judge.Standing.{finished_store-standing}
use judgeloom_core.Judge.Gateway.{expire_stale_jobs, claim_job, claimed_job, next_job}
use judgeloom_core.Judge.Callbacks.{or_keep, finish, finished_store, judged, record_loop}
use judgeloom_core.Judge.Soundness.{JobsAreSound}
use judgeloom_core.Judge.Calls.{Callback, starts, reports, finishes, call, call-owner}
use judgeloom_core.Judge.Machine.{Keyed, Follows, AreDistinct}
use judgeloom_core.Judge.Exclusive.{IsUnique, IsNot, claim_job-exclusive}
use judgeloom_core.Judge.Queue.{
  is_expiring, expire_stale_jobs_complete, next_job-first, IsOpen, GoesBefore,
}
use judgeloom_core.Judge.Retries.{finish-idempotent}
use judgeloom_core.Judge.Rows.{row_at, row_after, record_loop-rows}
use judgeloom_core.Base.Sort.{sort_by}
use judgeloom_core.Pipeline.{
  Reach, rejudged_in, here, then, submits, claims, calls, Reach-JobsAreSound, Reach-Follows,
  claim_job-some,
}
use judgeloom_core.Submissions.Create.{
  create_submission, insert_submission, new_submission, new_job, build_job_config,
}
use judgeloom_core.Tests.Data.{
  settings, request, site, submitted, reported, contest, entry, manifest, pack,
}

create_ok : create_submission settings request (whole 60) site ≡ ok submitted
unfolding create_submission judgeloom_core.Models.is_accessible_by
    judgeloom_core.Submissions.Create.recent_count
create_ok = refl

-- The job of the submission, as it is queued.
abbrev queued_job : JudgeJob
queued_job =
    new_job 101 100 (some pack) 5
      (build_job_config site request.problem 5 (some pack) request.participation request.mode "" "")
      (whole 60)

abbrev held_job : JudgeJob
held_job = claimed_job 7 (whole 70) queued_job

abbrev claimed : Store
claimed = (claim_job [] 7 (5 ∷ []) (whole 70) submitted).0

claimed_jobs : claimed.jobs ≡ held_job ∷ []
unfolding claim_job sort_by insert_submission
claimed_jobs = refl

abbrev started_db : Store
started_db = or_keep claimed (call 101 7 (whole 71) starts claimed)

start_ok : call 101 7 (whole 71) starts claimed ≡ ok started_db
unfolding call claim_job sort_by insert_submission
start_ok = refl

-- A report of both cases, the first one twice.
abbrev report : Callback
report = reports (reported 1 Verdict.wa 0 ∷ reported 1 ac 0 ∷ reported 2 ac 0 ∷ [])

abbrev judging : Store
judging = or_keep started_db (call 101 7 (whole 72) report started_db)

report_ok : call 101 7 (whole 72) report started_db ≡ ok judging
unfolding call claim_job sort_by insert_submission
report_ok = refl

abbrev finished : Store
finished = or_keep judging (finish 101 7 (whole 73) "" judging)

call_finish_ok : call 101 7 (whole 73) (finishes "") judging ≡ ok finished
unfolding finish call claim_job sort_by insert_submission
call_finish_ok = refl

finish_ok : finish 101 7 (whole 73) "" judging ≡ ok finished
unfolding finish call claim_job sort_by insert_submission
finish_ok = refl

-- The submission is accepted, with all points.
abbrev verdicts : List Submission → List (Option Verdict × ℕ)
verdicts [] = []
verdicts (s ∷ ss) = (s.result, s.points) ∷ verdicts ss

finished_verdict : verdicts finished.submissions ≡ (some ac, whole 3) ∷ []
unfolding finish call claim_job sort_by insert_submission
    judgeloom_core.Ranking.recalculate_participation judgeloom_core.Formats.Registry.get_format
    judgeloom_core.Formats.Registry.calculate_participation judgeloom_core.Models.round2
    judgeloom_core.Models.round4 judgeloom_core.Scoring.Cases.case_score
finished_verdict = refl

Reach-JobsAreSound_example : JobsAreSound judging
Reach-JobsAreSound_example =
    Reach-JobsAreSound
      (then
        (then
          (then (then here (submits settings request (whole 60) create_ok))
            (claims [] 7 (5 ∷ []) (whole 70)))
          (calls 101 7 (whole 71) starts start_ok))
        (calls 101 7 (whole 72) report report_ok))
      tt

submitted-Keyed : Keyed submitted
unfolding insert_submission
submitted-Keyed = ((omega arith, tt), (tt, tt))

-- A claim, the start, a report and the finish.
abbrev judged_once : Reach submitted finished
judged_once =
    then
      (then
        (then (then here (claims [] 7 (5 ∷ []) (whole 70)))
          (calls 101 7 (whole 71) starts start_ok))
        (calls 101 7 (whole 72) report report_ok))
      (calls 101 7 (whole 73) (finishes "") call_finish_ok)

Reach-Follows_example : Follows (rejudged_in judged_once) submitted finished
Reach-Follows_example = Reach-Follows judged_once submitted-Keyed

call-owner_example :
    (j : JudgeJob) × (find_job 101 claimed ≡ some j) × (is_id j.claimed_by 7 ≡ true)
call-owner_example = call-owner 101 7 (whole 71) starts claimed started_db start_ok

held-IsUnique : IsUnique held_job claimed
unfolding claim_job sort_by insert_submission
held-IsUnique = (λ e. refl, tt)

claim_job-exclusive_example :
    IsUnique held_job (claim_job [] 8 (5 ∷ []) (whole 80) claimed).0
    × IsNot held_job (claim_job [] 8 (5 ∷ []) (whole 80) claimed).1
claim_job-exclusive_example =
    claim_job-exclusive [] 8 (5 ∷ []) (whole 80) held_job claimed refl refl held-IsUnique

claimed-AreDistinct : AreDistinct claimed.jobs
unfolding claim_job sort_by insert_submission
claimed-AreDistinct = (tt, tt)

held_found : find_job held_job.id claimed ≡ some held_job
unfolding claim_job sort_by insert_submission
held_found = refl

-- The lease ran out at second 130.
claim_job-some_example : is_some (claim_job [] 8 (5 ∷ []) (whole 200) claimed).1 ≡ true
unfolding new_job
claim_job-some_example =
    claim_job-some [] 8 (5 ∷ []) (whole 200) held_job claimed claimed-AreDistinct held_found refl
      refl refl refl

expire_stale_jobs_complete_example :
    All
      (λ k. is_expiring [] (whole 200) k ≡ false)
      (expire_stale_jobs [] (whole 200) claimed).0.jobs
expire_stale_jobs_complete_example = expire_stale_jobs_complete [] (whole 200) claimed

queued_first : next_job [] (5 ∷ []) submitted ≡ some queued_job
unfolding next_job sort_by insert_submission
queued_first = refl

next_job-first_example :
    IsOpen [] (5 ∷ []) queued_job
    × All (λ k. IsOpen [] (5 ∷ []) k → GoesBefore queued_job k) submitted.jobs
next_job-first_example = next_job-first [] (5 ∷ []) submitted queued_job queued_first

finish-idempotent_example : finish 101 7 (whole 99) "again" finished ≡ ok finished
finish-idempotent_example =
    finish-idempotent 101 7 (whole 73) (whole 99) "" "again" judging finished finish_ok

abbrev reports_twice : List ReportedCase
reports_twice = reported 1 Verdict.wa 0 ∷ reported 1 ac 0 ∷ []

abbrev loop_or : Result (List CaseRow × ℕ) → List CaseRow × ℕ
loop_or (ok r) = r
loop_or (err e) = ([], 0)

abbrev looped : List CaseRow × ℕ
looped = loop_or (record_loop 100 manifest.cases reports_twice [] 0)

looped_ok : record_loop 100 manifest.cases reports_twice [] 0 ≡ ok (looped.0, looped.1)
unfolding record_loop
looped_ok = refl

record_loop-rows_example :
    row_at 100 1 looped.0 ≡ row_after 100 manifest.cases reports_twice [] 100 1
record_loop-rows_example =
    record_loop-rows 100 manifest.cases reports_twice [] looped.0 0 looped.1 looped_ok 100 1

-- The last report of case 1 decides.
abbrev statuses : Option CaseRow → Option Verdict
statuses none = none
statuses (some r) = some r.status

last_report : statuses (row_at 100 1 looped.0) ≡ some ac
unfolding record_loop
last_report = refl

abbrev accepted : Submission
accepted = record (new_submission request 100 (whole 60)) {
  status = SubmissionStatus.completed;
  result = some ac;
  points = whole 3;
}

abbrev calculation_or : Result Calculation → Calculation
calculation_or (ok r) = r
calculation_or (err e) = record {
  score = 0;
  tiebreaker = 0;
  cumulative_time = 0;
  format_data = FormatData.empty;
}

abbrev calculation : Calculation
calculation = calculation_or (
    calculate_participation icpc contest (problems_of contest submitted)
      (save_submission (judged 7 (whole 73) "" accepted) submitted).submissions entry none)

calculation_ok :
    calculate_participation icpc contest
      (problems_of contest submitted)
      (save_submission (judged 7 (whole 73) "" accepted) submitted).submissions
      entry
      none
    ≡ ok calculation
unfolding calculate_participation
calculation_ok = refl

entry_found : find_participation 30 submitted ≡ some entry
unfolding insert_submission
entry_found = refl

contest_found : find_contest 20 submitted ≡ some contest
unfolding insert_submission
contest_found = refl

icpc_found : get_format "icpc" ≡ ok icpc
unfolding get_format
icpc_found = refl

accepted_entry : accepted.contest_participation ≡ some 30
unfolding new_submission
accepted_entry = refl

finished_store-standing_example :
    find_participation 30 (finished_store 7 (whole 73) "" held_job submitted accepted)
    ≡ some (apply_calculation calculation entry)
finished_store-standing_example =
    finished_store-standing 7 (whole 73) "" held_job accepted 30 contest entry icpc calculation
      submitted accepted_entry entry_found contest_found icpc_found calculation_ok
