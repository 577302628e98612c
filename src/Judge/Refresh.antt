-- ===== src/Judge/Refresh.antt =====
-- The recalculation of a contest standing after a judged submission (judge_result_service.py,
-- `_refresh_contest_score`) writes participations only: what `f` reads of the other tables is kept.
use judgeloom_core.Base.{
  ℕ, ◌≡◌, refl, sym, ap, ◌∙◌, Option, none, some, List, Result, ok, err, >>=-eq-ok, ok-injective,
}
use judgeloom_core.Models.{
  Submission, Contest, Participation, Store, find_contest, find_participation, save_participation,
}
use judgeloom_core.Formats.Registry.{get_format, calculate_participation}
use judgeloom_core.Ranking.{problems_of, apply_calculation, recalculate_participation}
use judgeloom_core.Judge.Callbacks.{
  or_not_found, or_keep, refresh_participation, refresh_option, refresh_contest_score,
}

module _ {A : Type 0} (f : Store → A)
    (keep : (ps : List Participation) (db : Store)
      → f (record db { participations = ps }) ≡ f db) where
  recalculate_participation-keeps :
      (c : Contest) (p : Participation) (db : Store) {new : Store}
      → recalculate_participation c p db ≡ ok new
      → f new ≡ f db
  unfolding recalculate_participation
  recalculate_participation-keeps c p db h =
      let (format, _, rest) = >>=-eq-ok (get_format c.format_name) _ h in
      let (r, _, done) =
        >>=-eq-ok (calculate_participation format c (problems_of c db) db.submissions p none)
          (λ r. ok (save_participation (apply_calculation r p) db)) rest in
      ap f (sym (ok-injective _ _ done)) ∙ keep _ db

  or_keep-keeps :
      (db : Store) (r : Result Store)
      → ((new : Store) → r ≡ ok new → f new ≡ f db)
      → f (or_keep db r) ≡ f db
  or_keep-keeps db (ok new) h = h new refl
  or_keep-keeps db (err e) h = refl

  refresh_participation-keeps :
      (o : Option Participation) (db : Store) → f (refresh_participation o db) ≡ f db
  unfolding refresh_participation
  refresh_participation-keeps none db = refl
  refresh_participation-keeps (some p) db = or_keep-keeps db _ (λ new h.
      let (c, _, recalculated) =
        >>=-eq-ok (or_not_found (find_contest p.contest_id db) "Contest not found.")
          (λ c. recalculate_participation c p db) h in
      recalculate_participation-keeps c p db recalculated)

  refresh_option-keeps : (o : Option ℕ) (db : Store) → f (refresh_option o db) ≡ f db
  refresh_option-keeps none db = refl
  refresh_option-keeps (some k) db = refresh_participation-keeps (find_participation k db) db

  pub refresh_contest_score-keeps :
      (s : Submission) (db : Store) → f (refresh_contest_score s db) ≡ f db
  unfolding refresh_contest_score
  refresh_contest_score-keeps s db = refresh_option-keeps s.contest_participation db
