-- ===== src/Submissions/Progress.antt =====
-- What the older bridge's reports leave of a submission's progress.
use judgeloom_core.Base.{
  ℕ, ◌≤◌, ◌≡◌, refl, sym, ap, ◌∙◌, subst, arith, ◌==◌, ==_iff, true, not, ◌&&◌, some, List, [], ◌∷◌,
  select, count_where, first-passes, first-update_where, ok, >>=-eq-ok, ok-injective, Bool-cases,
  inl, inr,
}
use judgeloom_core.Models.{
  Submission, SubmissionStatus, is_ac, CaseRow, Store, find_submission, save_submission,
}
use judgeloom_core.Judge.Callbacks.{or_not_found, or_not_found-eq-ok, rows_of}
use judgeloom_core.Submissions.Reports.{CaseData, put_case, counted_case, update_test_case_result}

-- The submission after a report on a case: it is being judged, its progress has not gone back, and
-- the passed cases are those of its rows as they are stored.
pub record IsCounted (sid : ℕ) (d : CaseData) (s s' : Submission) (new : Store) : Type 0 where
  pub row : find_submission sid new ≡ some s'
  pub judging : s'.status ≡ SubmissionStatus.judging
  pub further : s.current_testcase ≤ s'.current_testcase
  pub reached : d.case_number ≤ s'.current_testcase
  pub larger : s.case_total ≤ s'.case_total
  pub covered : d.case_number ≤ s'.case_total
  pub passed : s'.case_passed ≡ count_where (λ r. is_ac r.status) (rows_of s.id new.case_rows)

put_case-others :
    (sid : ℕ) (d : CaseData) (rows : List CaseRow)
    → select (λ r. not (r.submission_id == sid)) (put_case sid d rows)
      ≡ select (λ r. not (r.submission_id == sid)) rows
unfolding put_case
put_case-others sid d [] = ground arith
put_case-others sid d (r ∷ rs) =
    elim (Bool-cases (r.submission_id == sid && r.case_number == d.case_number)) [
      | inl t ↦
          let own : (r.submission_id == sid) ≡ true = ground arith in
          let self : (sid == sid) ≡ true = (==_iff sid sid).1 refl in rw (t, own, self) refl
      | inr f ↦ rw (f, put_case-others sid d rs) refl
    ]

saved :
    (sid : ℕ) (s m : Submission) (db : Store)
    → find_submission sid db ≡ some s
    → m.id ≡ s.id
    → find_submission sid (save_submission m db) ≡ some m
saved sid s m db found same =
    let is_sid : s.id ≡ sid =
      (==_iff s.id sid).0 (first-passes (λ r. r.id == sid) db.submissions found) in
    subst (λ k. find_submission k (save_submission m db) ≡ some m) (same ∙ is_sid)
      (first-update_where (λ r. r.id == m.id) m db.submissions ((==_iff m.id m.id).1 refl)
        (subst (λ k. find_submission k db ≡ some s) (sym (same ∙ is_sid)) found))

-- A report of the older bridge on a case leaves the submission being judged with a progress that
-- has not gone back and reaches the case; the passed cases are counted over its stored rows; and the
-- rows of other submissions are as before.
pub update_test_case_result-IsCounted :
    (sid : ℕ) (d : CaseData) (db new : Store)
    → update_test_case_result sid d db ≡ ok new
    → (s : Submission) × (s' : Submission) × (find_submission sid db ≡ some s)
      × IsCounted sid d s s' new
      × (select (λ r. not (r.submission_id == s.id)) new.case_rows
          ≡ select (λ r. not (r.submission_id == s.id)) db.case_rows)
unfolding update_test_case_result
update_test_case_result-IsCounted sid d db new e =
    let (s, is, done) =
      >>=-eq-ok (or_not_found (find_submission sid db) "Submission was not found.") _ e in
    let found = or_not_found-eq-ok (find_submission sid db) "Submission was not found." is in
    let rows = put_case s.id d db.case_rows in
    let s' = counted_case d rows s in
    (
      s,
      s',
      found,
      subst (IsCounted sid d s s') (ok-injective _ _ done) (record {
        row = saved sid s s' db found refl;
        judging = refl;
        further = omega arith;
        reached = omega arith;
        larger = omega arith;
        covered = omega arith;
        passed = refl;
      }),
      ap (λ (n : Store). select (λ r. not (r.submission_id == s.id)) n.case_rows)
            (sym (ok-injective _ _ done))
          ∙ put_case-others s.id d db.case_rows,
    )
