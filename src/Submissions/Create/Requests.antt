-- ===== src/Submissions/Create/Requests.antt =====
-- `create_submission` (apps/submissions/services/submission_service.py).

use judgeloom_core.Base.{ℕ, not, ◌&&◌, is_some, Result, ok, ◌>>◌, raise_if, submission_error}
use judgeloom_core.Models.{is_run, active_package, Store}
use judgeloom_core.Submissions.Create.Guards.{
  Settings, Request, validate_source_code_size, validate_run_inputs, validate_problem_access,
  validate_language, check_rate_limit,
}
use judgeloom_core.Submissions.Create.Rows.{insert_submission}

-- The checks before anything is written, in their order.
unfoldable pub check_request : Settings → Request → ℕ → Store → Result (Unit {0})
check_request settings q now db = do
  validate_source_code_size settings q.source_code
  validate_run_inputs q
  validate_problem_access db now q.user q.problem
  validate_language q.problem q.language
  check_rate_limit settings db now q.user q.mode
  raise_if (not (is_some (active_package q.problem)) && not (is_run q.mode))
      (submission_error "No active test data package is available for this problem.")

-- `create_submission`
unfoldable pub create_submission : Settings → Request → ℕ → Store → Result Store
unfolding check_request insert_submission
create_submission settings q now db =
    check_request settings q now db >> ok (insert_submission q (active_package q.problem) now db)
