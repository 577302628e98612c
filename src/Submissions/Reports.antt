-- ===== src/Submissions/Reports.antt =====
-- The callbacks of the older bridge, `update_submission_result` and `update_test_case_result`
-- (apps/submissions/services/submission_service.py). A value that the judge leaves out is `none`.
-- The bridge reports the statuses of the site, and no other text.
use judgeloom_core.Base.{
  ℕ, max, ◌==◌, ◌&&◌, Option, none, some, List, [], ◌∷◌, if◌then◌else◌, count_where, String, Result,
  ok, ◌>>=◌,
}
use judgeloom_core.Base.Int.{ℤ}
use judgeloom_core.Models.{
  Submission, SubmissionStatus, Verdict, ie, is_ac, normalize, Reported, known, CaseRow, Store,
  submission_judging, submission_judged, find_submission, save_submission, publish,
}
use judgeloom_core.Scoring.{default_group}
use judgeloom_core.Judge.Callbacks.{or_not_found, rows_of}

pub record ResultData : Type 0 where
  pub status : Option SubmissionStatus
  pub result : Option Reported
  pub points : Option ℕ
  pub time_used : Option ℕ
  pub memory_used : Option ℕ
  pub case_total : Option ℕ
  pub case_passed : Option ℕ
  pub current_testcase : Option ℕ
  pub error_message : Option String

-- `data.get(key, default)`
abbrev pub given_or {ℓ} : {A : Type ℓ} → Option A → A → A
given_or none default = default
given_or (some a) default = a

-- A result that is no `SubmissionResult` becomes IE.
abbrev pub known_result : Option Reported → Option Verdict
known_result none = none
known_result (some (known v)) = some v
known_result (some _) = some ie

abbrev pub final_row : ResultData → ℕ → Submission → Submission
final_row d now s = record s {
  status = given_or d.status SubmissionStatus.completed;
  result = known_result d.result;
  points = given_or d.points s.points;
  time_used = given_or d.time_used s.time_used;
  memory_used = given_or d.memory_used s.memory_used;
  case_total = given_or d.case_total s.case_total;
  case_passed = given_or d.case_passed s.case_passed;
  current_testcase = given_or d.current_testcase s.current_testcase;
  error_message = given_or d.error_message s.error_message;
  judged_at = some now;
}

-- `update_submission_result`
unfoldable pub update_submission_result : ℕ → ResultData → ℕ → Store → Result Store
update_submission_result sid d now db = do
  s ← or_not_found (find_submission sid db) "Submission was not found."
  let s' = final_row d now s
  ok (publish (submission_judged s.id s'.status s'.result s'.points) (save_submission s' db))

pub record CaseData : Type 0 where
  pub case_number : ℕ
  pub status : Reported
  pub time_used : ℕ
  pub memory_used : ℕ
  pub points : ℤ
  pub total_points : ℤ
  pub feedback : String
  pub output : String
  pub case_total : Option ℕ

-- The row with a group, which the callback does not write; `batch_number` is left out.
abbrev pub case_row : ℕ → CaseData → ℕ → CaseRow
case_row sid d group = record {
  submission_id = sid;
  case_number = d.case_number;
  status = normalize d.status;
  time_used = d.time_used;
  memory_used = d.memory_used;
  points = d.points;
  total_points = d.total_points;
  group = group;
  feedback = d.feedback;
  output = d.output;
}

-- `update_or_create(submission=…, case_number=…)`: a row that is there keeps its group.
unfoldable pub put_case : ℕ → CaseData → List CaseRow → List CaseRow
put_case sid d [] = case_row sid d default_group ∷ []
put_case sid d (r ∷ rs) =
    if r.submission_id == sid && r.case_number == d.case_number
    then case_row sid d r.group ∷ rs
    else r ∷ put_case sid d rs

abbrev pub counted_case : CaseData → List CaseRow → Submission → Submission
counted_case d rows s = record s {
  current_testcase = max s.current_testcase d.case_number;
  case_total = max (max s.case_total (given_or d.case_total s.case_total)) d.case_number;
  case_passed = count_where (λ r. is_ac r.status) (rows_of s.id rows);
  status = SubmissionStatus.judging;
}

-- `update_test_case_result`
unfoldable pub update_test_case_result : ℕ → CaseData → Store → Result Store
unfolding put_case
update_test_case_result sid d db = do
  s ← or_not_found (find_submission sid db) "Submission was not found."
  let rows = put_case s.id d db.case_rows
  let s' = counted_case d rows s
  ok (
      publish
        (submission_judging s.id d.case_number (normalize d.status) s'.case_total s'.case_passed
          s'.current_testcase)
        (save_submission s' (record db { case_rows = rows })))
