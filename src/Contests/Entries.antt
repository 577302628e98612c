-- ===== src/Contests/Entries.antt =====
-- apps/contests/services/contest_service.py, `submit_to_contest`: a submission for a contest problem.
use judgeloom_core.Base.{
  ℕ, suc, ◌∷◌, ◌≡◌, ◌<◌, sym, ap, String, Bool, true, false, not, ◌&&◌, ◌||◌, Option, none, some,
  arith, leb, ◌==◌, is_id, select, first, first-passes, count_where, Error, Result, ok, err, ◌>>=◌,
  ◌>>◌, raise_if, contest_error, contest_access_denied, >>=-eq-ok, >>-eq-ok, ok-injective,
  raise_if-eq-ok,
}
use judgeloom_core.Models.{
  User, Problem, Language, Contest, ContestProblem, Participation, SubmissionMode, is_active,
  time_remaining, Store, find_problem,
}
use judgeloom_core.Ranking.{participations_of, problems_of}
use judgeloom_core.Judge.Callbacks.{or_not_found, or_not_found-eq-ok}
use judgeloom_core.Submissions.Create.{
  is_live, Settings, Request, check_request, new_submission, insert_submission, create_submission,
}
use judgeloom_core.Contests.Joining.{is_virtual}

abbrev pub or_raise {ℓ} : {A : Type ℓ} → Option A → Error → Result A
or_raise none e = err e
or_raise (some a) e = ok a

-- An entry of the user that may submit.
abbrev pub may_enter : User → Participation → Bool
may_enter u p =
    p.user_id == u.id && not p.is_disqualified && (is_live p.status || is_virtual p.status)

-- `.filter(...).first()`, in the order of the participations
unfoldable pub entry_of : Contest → User → Store → Option Participation
entry_of c u db = first (select (may_enter u) (participations_of c db))

abbrev pub has_code : ℕ → Option Problem → Bool
has_code code none = false
has_code code (some p) = p.code == code

unfoldable pub contest_problem_of : Contest → ℕ → Store → Option ContestProblem
contest_problem_of c code db =
    first (select (λ cp. has_code code (find_problem cp.problem_id db)) (problems_of c db))

-- `participation.submissions.filter(problem=…).count()`
unfoldable pub used_submissions : Participation → ContestProblem → Store → ℕ
used_submissions p cp db =
    count_where (λ s. is_id s.contest_participation p.id && s.problem_id == cp.problem_id)
      db.submissions

abbrev pub limit_reached : Option ℕ → ℕ → Bool
limit_reached none used = false
limit_reached (some most) used = leb most used

abbrev pub contest_request : User → Problem → Language → String → Participation → Request
contest_request u p l source part = record {
  user = u;
  problem = p;
  language = l;
  source_code = source;
  participation = some part;
  mode = SubmissionMode.submit;
  custom_input = "";
  expected_output = "";
}

-- The two checks of the entry's time.
unfoldable pub check_entry : Contest → Participation → ℕ → Result (Unit {0})
check_entry c part now = do
  raise_if (is_live part.status && not (is_active c now)) (contest_error "Contest is not active.")
  raise_if (is_virtual part.status && leb (time_remaining c part now) 0)
      (contest_error "Virtual participation time has expired.")

-- `submit_to_contest` for an entry and a problem that are found.
unfoldable pub submit_entry :
    Settings → User → Language → String → ℕ → Participation → ContestProblem → Store → Result Store
submit_entry settings u l source now part cp db = do
  raise_if (limit_reached cp.max_submissions (used_submissions part cp db))
      (contest_error "Submission limit reached for this problem.")
  p ← or_not_found (find_problem cp.problem_id db) "Problem not found."
  create_submission settings (contest_request u p l source part) now db

-- `ContestService.submit_to_contest`
unfoldable pub submit_to_contest :
    Settings → User → Contest → ℕ → Language → String → ℕ → Store → Result Store
unfolding check_entry submit_entry entry_of contest_problem_of
submit_to_contest settings u c code l source now db = do
  part ← or_raise (entry_of c u db) (contest_access_denied "Join the contest before submitting.")
  check_entry c part now
  cp ←
      or_raise (contest_problem_of c code db) (contest_error "Problem is not part of this contest.")
  submit_entry settings u l source now part cp db

or_raise-eq-ok {ℓ} :
    {A : Type ℓ} (o : Option A) (e : Error) {a : A} → or_raise o e ≡ ok a → o ≡ some a
or_raise-eq-ok none e h = cc
or_raise-eq-ok (some b) e h = cc

-- What an accepted contest submission tells of the entry that it counts for.
pub record Entered (c : Contest) (u : User) (now : ℕ) (part : Participation) : Type 0 where
  pub own : part.user_id ≡ u.id
  pub qualified : part.is_disqualified ≡ false
  pub in_time : is_live part.status ≡ true → is_active c now ≡ true
  pub time_left : is_virtual part.status ≡ true → 0 < time_remaining c part now

check_entry-Entered :
    (c : Contest) (u : User) (now : ℕ) (part : Participation)
    → may_enter u part ≡ true
    → check_entry c part now ≡ ok tt
    → Entered c u now part
unfolding check_entry
check_entry-Entered c u now part mine h = ground arith

create_submission-submissions :
    (settings : Settings) (q : Request) (now : ℕ) (db new : Store)
    → create_submission settings q now db ≡ ok new
    → new.submissions ≡ new_submission q db.next_id now ∷ db.submissions
unfolding create_submission insert_submission
create_submission-submissions settings q now db new e =
    let (_, done) = >>-eq-ok (check_request settings q now db) _ e in
    ap (λ d. d.submissions) (sym (ok-injective _ _ done))

-- An accepted submission is one more of its entry, and fits the limit of the problem.
submit_entry-used :
    (settings : Settings) (u : User) (l : Language) (source : String) (now : ℕ)
    (part : Participation) (cp : ContestProblem) (db new : Store)
    → submit_entry settings u l source now part cp db ≡ ok new
    → (limit_reached cp.max_submissions (used_submissions part cp db) ≡ false)
      × (used_submissions part cp new ≡ suc (used_submissions part cp db))
unfolding submit_entry used_submissions new_submission
submit_entry-used settings u l source now part cp db new e =
    let (room, rest) =
      >>-eq-ok
        (raise_if (limit_reached cp.max_submissions (used_submissions part cp db))
          (contest_error "Submission limit reached for this problem."))
        _ e in
    let (p, found, created) =
      >>=-eq-ok (or_not_found (find_problem cp.problem_id db) "Problem not found.")
        (λ p. create_submission settings (contest_request u p l source part) now db) rest in
    let same : (p.id == cp.problem_id) ≡ true =
      first-passes (λ p. p.id == cp.problem_id) db.problems (or_not_found-eq-ok _ _ found) in
    let added =
      create_submission-submissions settings (contest_request u p l source part) now db new
        created in
    (raise_if-eq-ok _ _ room, rw added (ground arith))

-- An accepted contest submission counts for an entry of the user that is not disqualified and has
-- time left, for a problem of the contest whose limit it keeps; and it is one more of that entry.
pub submit_to_contest-Entered :
    (settings : Settings) (u : User) (c : Contest) (code : ℕ) (l : Language) (source : String)
    (now : ℕ) (db new : Store)
    → submit_to_contest settings u c code l source now db ≡ ok new
    → (part : Participation) × (cp : ContestProblem) × (entry_of c u db ≡ some part)
      × (contest_problem_of c code db ≡ some cp)
      × Entered c u now part
      × (limit_reached cp.max_submissions (used_submissions part cp db) ≡ false)
      × (used_submissions part cp new ≡ suc (used_submissions part cp db))
unfolding submit_to_contest entry_of
submit_to_contest-Entered settings u c code l source now db new e =
    let (part, found, after_entry) =
      >>=-eq-ok
        (or_raise (entry_of c u db) (contest_access_denied "Join the contest before submitting.")) _
        e in
    let entry = or_raise-eq-ok (entry_of c u db) _ found in
    let (checked, after_check) = >>-eq-ok (check_entry c part now) _ after_entry in
    let (cp, problem_found, submitted) =
      >>=-eq-ok
        (or_raise (contest_problem_of c code db)
          (contest_error "Problem is not part of this contest."))
        (λ cp. submit_entry settings u l source now part cp db) after_check in
    let used = submit_entry-used settings u l source now part cp db new submitted in
    (
      part,
      cp,
      entry,
      or_raise-eq-ok (contest_problem_of c code db) _ problem_found,
      check_entry-Entered c u now part (first-passes (may_enter u) (participations_of c db) entry)
          checked,
      used.0,
      used.1,
    )
