-- ===== src/Judge/Standing.antt =====
-- The contest standing after a judged submission (judge_result_service.py, `finish`).
use judgeloom_core.Base.{
  ℕ, ◌≡◌, refl, sym, ap, ◌∙◌, subst, none, some, arith, ◌==◌, first-passes, first-update_where,
  ==_iff, ok, String,
}
use judgeloom_core.Models.{
  JudgeJob, Submission, Contest, Participation, Calculation, Store, find_contest,
  find_participation, save_submission, save_participation,
}
use judgeloom_core.Formats.Registry.{ContestFormat, get_format, calculate_participation}
use judgeloom_core.Ranking.{problems_of, apply_calculation, recalculate_participation}
use judgeloom_core.Judge.Callbacks.{
  or_keep, judged, refresh_participation, refresh_contest_score, finished_store,
}

find_participation-saved :
    (k : ℕ) (p m : Participation) (db : Store)
    → find_participation k db ≡ some p
    → m.id ≡ p.id
    → find_participation k (save_participation m db) ≡ some m
find_participation-saved k p m db found same =
    let here : p.id ≡ k =
      (==_iff p.id k).0 (first-passes (λ r. r.id == k) db.participations found) in
    let same_k : m.id ≡ k = same ∙ here in
    subst (λ k. find_participation k (save_participation m db) ≡ some m) same_k
      (first-update_where (λ r. r.id == m.id) m db.participations (ground arith)
        (subst (λ k. find_participation k db ≡ some p) (sym same_k) found))

recalculate_participation-ok :
    (c : Contest) (p : Participation) (format : ContestFormat) (r : Calculation) (db : Store)
    → get_format c.format_name ≡ ok format
    → calculate_participation format c (problems_of c db) db.submissions p none ≡ ok r
    → recalculate_participation c p db ≡ ok (save_participation (apply_calculation r p) db)
unfolding recalculate_participation
recalculate_participation-ok c p format r db e f = rw (e, f) refl

refresh_contest_score-ok :
    (s : Submission) (k : ℕ) (c : Contest) (p : Participation) (format : ContestFormat)
    (r : Calculation) (db : Store)
    → s.contest_participation ≡ some k
    → find_participation k db ≡ some p
    → find_contest p.contest_id db ≡ some c
    → get_format c.format_name ≡ ok format
    → calculate_participation format c (problems_of c db) db.submissions p none ≡ ok r
    → refresh_contest_score s db ≡ save_participation (apply_calculation r p) db
unfolding refresh_contest_score refresh_participation
refresh_contest_score-ok s k c p format r db e1 e2 e3 e4 e5 =
    rw (e1, e2, e3) (ap (or_keep db) (recalculate_participation-ok c p format r db e4 e5))

-- A finished contest submission leaves the standing of its entry equal to the calculation of the
-- contest's format over the submissions as they are stored then, the new result included.
pub finished_store-standing :
    (judge now : ℕ) (message : String) (j : JudgeJob) (s : Submission) (k : ℕ) (c : Contest)
    (p : Participation) (format : ContestFormat) (r : Calculation) (db : Store)
    → s.contest_participation ≡ some k
    → find_participation k db ≡ some p
    → find_contest p.contest_id db ≡ some c
    → get_format c.format_name ≡ ok format
    → calculate_participation format c
        (problems_of c db)
        (save_submission (judged judge now message s) db).submissions
        p
        none
      ≡ ok r
    → find_participation k (finished_store judge now message j db s) ≡ some (apply_calculation r p)
unfolding finished_store problems_of
finished_store-standing judge now message j s k c p format r db e1 e2 e3 e4 e5 =
    let stamped = judged judge now message s in
    let saved = save_submission stamped db in
    ap (λ d. find_participation k d)
      (refresh_contest_score-ok stamped k c p format r saved e1 e2 e3 e4 e5)
    ∙ find_participation-saved k p (apply_calculation r p) saved e2 refl
