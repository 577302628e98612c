-- ===== src/Tests/Requests.antt =====
-- Requests for submissions, and who sees them.
use judgeloom_core.Base.{◌≡◌, ◌≤◌, refl, false, some, ◌∷◌, ok, err}
use judgeloom_core.Models.{Submission, JudgeJob, Store, find_submission, whole}
use judgeloom_core.Submissions.Create.{new_submission, recent_count, rate_limit, create_submission}
use judgeloom_core.Submissions.Checks.{Accepted, create_submission-Accepted}
use judgeloom_core.Submissions.Rejudge.{rejudge_submission}
use judgeloom_core.Submissions.Reset.{IsReset, rejudge_submission-IsReset}
use judgeloom_core.Tests.Data.{settings, request, site, submitted}

accepted_ok : create_submission settings request (whole 60) site ≡ ok submitted
unfolding create_submission judgeloom_core.Models.is_accessible_by recent_count
accepted_ok = refl

create_submission-Accepted_example :
    Accepted settings request (whole 60) site
    × (submitted.submissions ≡ new_submission request site.next_id (whole 60) ∷ site.submissions)
    × ((j : JudgeJob) × (submitted.jobs ≡ j ∷ site.jobs)
        × (j.submission_id ≡ site.next_id)
        × (j.attempts ≡ 0))
    × (request.user.is_staff ≡ false
        → recent_count submitted (whole 60) request.user.id request.mode
          ≤ rate_limit settings request.mode)
create_submission-Accepted_example =
    create_submission-Accepted settings request (whole 60) site submitted accepted_ok

abbrev alices : Submission
alices = new_submission request 100 (whole 60)

abbrev rejudged_site : Store
rejudged_site = elim (rejudge_submission 100 (whole 90) submitted) [
  | ok new ↦ new
  | err _ ↦ submitted
]

rejudged_ok : rejudge_submission 100 (whole 90) submitted ≡ ok rejudged_site
unfolding rejudge_submission judgeloom_core.Submissions.Create.insert_submission
rejudged_ok = refl

rejudge_submission-IsReset_example :
    (s : Submission) × (find_submission 100 submitted ≡ some s) × IsReset s rejudged_site
rejudge_submission-IsReset_example =
    rejudge_submission-IsReset 100 (whole 90) submitted rejudged_site rejudged_ok
