-- ===== src/Judge/Rows.antt =====
-- The rows of a submission's test cases after a report (judge_result_service.py, `record_cases`).
use judgeloom_core.Base.{
  ℕ, ◌≡◌, sym, ap, ◌∙◌, inl, inr, Bool, not, ◌&&◌, Option, none, some, List, [], ◌∷◌, arith, ◌==◌,
  if◌then◌else◌, select, first, Bool-cases, Option-cases, ok, >>-eq-ok, ok-injective, raise_if,
  validation_error,
}
use judgeloom_core.Models.{CaseRow, ManifestCase}
use judgeloom_core.Scoring.Cases.{ReportedCase}
use judgeloom_core.Judge.Callbacks.{row_of, upsert_row, is_outside, record_loop}

abbrev pub is_row : ℕ → ℕ → CaseRow → Bool
is_row sid n r = r.submission_id == sid && r.case_number == n

abbrev pub row_at : ℕ → ℕ → List CaseRow → Option CaseRow
row_at sid n rows = first (select (is_row sid n) rows)

row_at-cons :
    (sid n : ℕ) (x : CaseRow) (rows : List CaseRow)
    → row_at sid n (x ∷ rows) ≡ (if is_row sid n x then some x else row_at sid n rows)
row_at-cons sid n x rows = ground arith

row_at-upsert_row :
    (sid n : ℕ) (r : CaseRow) (rows : List CaseRow)
    → row_at sid n (upsert_row r rows) ≡ (if is_row sid n r then some r else row_at sid n rows)
unfolding upsert_row
row_at-upsert_row sid n r [] = ground arith
row_at-upsert_row sid n r (x ∷ rows) = elim (Bool-cases (is_row r.submission_id r.case_number x)) [
  | inl e ↦ rw e (ground (arith, row_at-cons sid n r rows, row_at-cons sid n x rows))
  | inr e ↦ rw e (
      ground (
        arith,
        row_at-cons sid n x rows,
        row_at-cons sid n x (upsert_row r rows),
        row_at-upsert_row sid n r rows,
      ))
]

abbrev pub or_old {ℓ} : {A : Type ℓ} → Option A → Option A → Option A
or_old none other = other
or_old (some a) other = some a

-- The row that the last report of case `n` makes; a report of case 0 makes none.
abbrev pub reported_row : ℕ → List ManifestCase → ℕ → List ReportedCase → Option CaseRow
reported_row sid cases n [] = none
reported_row sid cases n (c ∷ cs) =
    or_old (reported_row sid cases n cs)
      (if not (c.case_number == 0) && c.case_number == n then some (row_of sid cases c) else none)

-- What a report does to the row of case `n` of submission `t`.
abbrev pub row_after :
    ℕ → List ManifestCase → List ReportedCase → List CaseRow → ℕ → ℕ → Option CaseRow
row_after sid cases reported rows t n =
    if t == sid
    then or_old (reported_row sid cases n reported) (row_at t n rows)
    else row_at t n rows

row_after-step :
    (sid : ℕ) (cases : List ManifestCase) (c : ReportedCase) (cs : List ReportedCase)
    (rows : List CaseRow) (t n : ℕ)
    → row_after sid cases cs
        (if c.case_number == 0 then rows else upsert_row (row_of sid cases c) rows)
        t
        n
      ≡ row_after sid cases (c ∷ cs) rows t n
row_after-step sid cases c cs rows t n = elim (Option-cases (reported_row sid cases n cs)) [
  | inl e ↦ rw e (ground (arith, row_at-upsert_row t n (row_of sid cases c) rows))
  | inr (r, e) ↦ rw e (ground (arith, row_at-upsert_row t n (row_of sid cases c) rows))
]

-- After the loop, every case of the submission has the row of its last report, or the one that it
-- had; the rows of all other submissions are untouched.
pub record_loop-rows :
    (sid : ℕ) (cases : List ManifestCase) (reported : List ReportedCase) (rows rows' : List CaseRow)
    (max_case max_case' : ℕ)
    → record_loop sid cases reported rows max_case ≡ ok (rows', max_case')
    → (t n : ℕ) → row_at t n rows' ≡ row_after sid cases reported rows t n
unfolding record_loop
record_loop-rows sid cases [] rows rows' max_case max_case' e t n =
    let same : rows ≡ rows' = ap (λ r. r.0) (ok-injective _ _ e) in rw (sym same) (ground arith)
record_loop-rows sid cases (c ∷ cs) rows rows' max_case max_case' e t n =
    let (_, rest) =
      >>-eq-ok
        (raise_if (is_outside cases c.case_number)
          (validation_error "Case number is outside the active package."))
        _ e in
    record_loop-rows sid cases cs _ rows' _ max_case' rest t n
    ∙ row_after-step sid cases c cs rows t n
