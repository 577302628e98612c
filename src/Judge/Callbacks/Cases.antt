-- ===== src/Judge/Callbacks/Cases.antt =====
-- `record_cases`: the rows of the reported cases and the progress of the submission
-- (apps/judge/services/judge_result_service.py).
use judgeloom_core.Base.{
  ℕ, suc, Bool, false, not, ◌&&◌, Option, none, some, List, [], ◌∷◌, leb, ◌==◌, if◌then◌else◌,
  select, length, count_where, get_elem?, max, min, Result, ok, ◌>>=◌, ◌>>◌, raise_if,
  validation_error,
}
use judgeloom_core.Models.{
  Submission, SubmissionStatus, is_ac, normalize, CaseRow, ManifestCase, JudgeJob, running,
  is_claimed, cases_of, submission_case, Store, save_job, save_submission, publish,
}
use judgeloom_core.Scoring.Cases.{ReportedCase}
use judgeloom_core.Scoring.{default_group}
use judgeloom_core.Judge.Leases.{assert_owned, lease_until}
use judgeloom_core.Judge.Callbacks.Locks.{lock_job, submission_of}

abbrev pub group_of : Option ManifestCase → ℕ
group_of none = default_group
group_of (some m) = m.group

-- `_manifest_case(locked, case_number)`, at the index case_number - 1
abbrev pub manifest_entry : List ManifestCase → ℕ → Option ManifestCase
manifest_entry cases ℕ.zero = none
manifest_entry cases (suc i) = get_elem? cases i

abbrev pub row_of : ℕ → List ManifestCase → ReportedCase → CaseRow
row_of sid cases c = record {
  submission_id = sid;
  case_number = c.case_number;
  status = normalize c.status;
  time_used = c.time_used;
  memory_used = c.memory_used;
  points = c.points;
  total_points = c.total_points;
  group = group_of (manifest_entry cases c.case_number);
  feedback = c.feedback;
  output = c.output;
}

-- `update_or_create(submission=…, case_number=…)`
unfoldable pub upsert_row : CaseRow → List CaseRow → List CaseRow
upsert_row r [] = r ∷ []
upsert_row r (x ∷ xs) =
    if x.submission_id == r.submission_id && x.case_number == r.case_number
    then r ∷ xs
    else x ∷ upsert_row r xs

-- `manifest_cases and not 1 <= case_number <= len(manifest_cases)`
abbrev pub is_outside : List ManifestCase → ℕ → Bool
is_outside [] n = false
is_outside (c ∷ cs) n = not (leb 1 n && leb n (length (c ∷ cs)))

-- The loop of `record_cases`, over the rows and the greatest case number.
unfoldable pub record_loop :
    ℕ → List ManifestCase → List ReportedCase → List CaseRow → ℕ → Result (List CaseRow × ℕ)
unfolding upsert_row
record_loop sid cases [] rows max_case = ok (rows, max_case)
record_loop sid cases (c ∷ cs) rows max_case =
    raise_if (is_outside cases c.case_number)
      (validation_error "Case number is outside the active package.")
    >> record_loop sid cases cs
        (if c.case_number == 0 then rows else upsert_row (row_of sid cases c) rows)
        (if c.case_number == 0 then max_case else max max_case c.case_number)

abbrev pub rows_of : ℕ → List CaseRow → List CaseRow
rows_of sid = select (λ r. r.submission_id == sid)

-- `len(manifest_cases) or submission.test_cases.count()`
abbrev pub count_or : List ManifestCase → ℕ → ℕ
count_or [] n = n
count_or (c ∷ cs) n = length (c ∷ cs)

abbrev pub noted_progress : List ManifestCase → List CaseRow → ℕ → Submission → Submission
noted_progress cases rows max_case s =
    let own = rows_of s.id rows in
    let total = count_or cases (length own) in
    record s {
      status = SubmissionStatus.judging;
      case_total = total;
      case_passed = count_where (λ r. is_ac r.status && leb r.case_number total) own;
      current_testcase = min max_case total;
    }

-- `started_at or timezone.now()`
abbrev pub or_now : Option ℕ → ℕ → Option ℕ
or_now none now = some now
or_now (some t) now = some t

abbrev pub progressed : ℕ → JudgeJob → JudgeJob
progressed now j = record j {
  status = if is_claimed j.status then running else j.status;
  started_at = if is_claimed j.status then or_now j.started_at now else j.started_at;
  lease_expires_at = lease_until now;
}

-- What `record_cases` saves after its loop.
abbrev pub recorded : ℕ → JudgeJob → Submission → Store → List CaseRow × ℕ → Store
recorded now j s db (rows, max_case) =
    let s' = noted_progress (cases_of j.pack) rows max_case s in
    publish (submission_case s.id s'.case_total s'.case_passed max_case)
      (save_job (progressed now j) (save_submission s' (record db { case_rows = rows })))

unfoldable pub record_cases_locked : ℕ → ℕ → List ReportedCase → JudgeJob → Store → Result Store
unfolding record_loop
record_cases_locked judge now reported j db = do
  assert_owned j judge now
  s ← submission_of j db
  looped ← record_loop s.id (cases_of j.pack) reported db.case_rows s.current_testcase
  ok (recorded now j s db looped)

-- `JudgeResultService.record_cases`
unfoldable pub record_cases : ℕ → ℕ → ℕ → List ReportedCase → Store → Result Store
unfolding record_cases_locked
record_cases job judge now reported db = do
  j ← lock_job job db
  record_cases_locked judge now reported j db
