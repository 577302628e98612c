-- ===== src/Judge/Callbacks/Grading.antt =====
-- What `finish` makes of the reported cases, and the standing that it refreshes
-- (apps/judge/services/judge_result_service.py).
use judgeloom_core.Base.{
  ℕ, Option, none, some, List, [], ◌∷◌, map, leb, if◌then◌else◌, max, String, Result, ok, err,
  ◌>>=◌, attribute_error,
}
use judgeloom_core.Base.Sort.{sort_by}
use judgeloom_core.Models.{
  Submission, SubmissionStatus, known, ie, is_ac, is_run, CaseRow, Package, Participation, Store,
  find_contest, find_participation,
}
use judgeloom_core.Scoring.Cases.{ReportedCase}
use judgeloom_core.Scoring.{ScoreSummary, score}
use judgeloom_core.Ranking.{recalculate_participation}
use judgeloom_core.Judge.Callbacks.Locks.{or_not_found}
use judgeloom_core.Judge.Callbacks.Cases.{rows_of}

-- `order_by("case_number")`
unfoldable pub ordered_rows : ℕ → Store → List CaseRow
ordered_rows sid db = sort_by (λ a b. leb a.case_number b.case_number) (rows_of sid db.case_rows)

abbrev pub last_row : List CaseRow → Option CaseRow
last_row [] = none
last_row (r ∷ []) = some r
last_row (r ∷ x ∷ rs) = last_row (x ∷ rs)

abbrev pub reported_of : CaseRow → ReportedCase
reported_of r = record {
  case_number = r.case_number;
  status = known r.status;
  time_used = r.time_used;
  memory_used = r.memory_used;
  points = r.points;
  total_points = r.total_points;
  feedback = r.feedback;
  output = "";
}

-- The result of a run with custom input: its last row decides, and there are no points.
abbrev pub run_result : Option CaseRow → Submission → Submission
run_result none s = record s {
  status = SubmissionStatus.error;
  result = some ie;
  points = 0;
  time_used = 0;
  memory_used = 0;
  case_total = 0;
  case_passed = 0;
  current_testcase = 0;
  subtask_scores = [];
}
run_result (some r) s = record s {
  status = SubmissionStatus.completed;
  result = some r.status;
  points = 0;
  time_used = r.time_used;
  memory_used = r.memory_used;
  case_total = 1;
  case_passed = if is_ac r.status then 1 else 0;
  current_testcase = 1;
  subtask_scores = [];
}

abbrev pub max_case_number : List CaseRow → ℕ
max_case_number [] = 0
max_case_number (r ∷ rs) = max r.case_number (max_case_number rs)

abbrev pub scored_result : ScoreSummary → List CaseRow → Submission → Submission
scored_result summary rows s = record s {
  status = summary.status;
  result = some summary.result;
  points = summary.points;
  time_used = summary.time_used;
  memory_used = summary.memory_used;
  case_total = summary.case_total;
  case_passed = summary.case_passed;
  current_testcase = max_case_number rows;
  subtask_scores = summary.subtask_scores;
}

abbrev pub score_submission : Option Package → List CaseRow → Submission → Result Submission
score_submission none rows s = err (attribute_error "NoneType has no attribute manifest")
score_submission (some p) rows s =
    ok (scored_result (score p.manifest (map reported_of rows)) rows s)

unfoldable pub graded : Option Package → List CaseRow → Submission → Result Submission
unfolding score
graded pack rows s =
    if is_run s.mode then ok (run_result (last_row rows) s) else score_submission pack rows s

abbrev pub judged : ℕ → ℕ → String → Submission → Submission
judged judge now message s = record s {
  judged_at = some now;
  judged_on = some judge;
  error_message = message;
}

-- The recalculation keeps the old standing if it raises.
abbrev pub or_keep : Store → Result Store → Store
or_keep db (ok new) = new
or_keep db (err e) = db

unfoldable pub refresh_participation : Option Participation → Store → Store
refresh_participation none db = db
refresh_participation (some p) db = or_keep db (do
  c ← or_not_found (find_contest p.contest_id db) "Contest not found."
  recalculate_participation c p db)

abbrev pub refresh_option : Option ℕ → Store → Store
refresh_option none db = db
refresh_option (some k) db = refresh_participation (find_participation k db) db

-- `_refresh_contest_score`
unfoldable pub refresh_contest_score : Submission → Store → Store
unfolding refresh_participation
refresh_contest_score s db = refresh_option s.contest_participation db
