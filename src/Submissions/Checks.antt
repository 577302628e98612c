-- ===== src/Submissions/Checks.antt =====
-- What an accepted submission has passed, and what a new one adds (`create_submission`).
use Prim.Native.String.{len}
use judgeloom_core.Base.{
  ℕ, suc, ◌≡◌, ◌≤◌, ◌<◌, refl, sym, ap, subst, true, false, ◌||◌, ◌∷◌, arith, any, is_some, ok,
  >>-eq-ok, ok-injective,
}
use judgeloom_core.Models.{is_run, JudgeJob, is_accessible_by, active_package, Store}
use judgeloom_core.Submissions.Create.{
  Settings, Request, max_run_input_bytes, validate_source_code_size, validate_run_inputs,
  validate_problem_access, validate_language, check_rate_limit, gives_access, is_allowed,
  recent_count, rate_limit, new_submission, new_job, build_job_config, insert_submission,
  check_request, create_submission,
}

-- What the checks of a request establish.
pub record Accepted (settings : Settings) (q : Request) (now : ℕ) (db : Store) : Type 0 where
  pub small : len q.source_code ≤ settings.max_submission_size
  pub run_input :
      is_run q.mode ≡ true
      → (len q.custom_input ≤ max_run_input_bytes) × (len q.expected_output ≤ max_run_input_bytes)
  pub no_input : is_run q.mode ≡ false → (len q.custom_input ≡ 0) × (len q.expected_output ≡ 0)
  pub access :
      (is_accessible_by q.problem q.user
        || any (gives_access db now q.user q.problem) db.participations)
      ≡ true
  pub enabled : q.language.is_enabled ≡ true
  pub language : is_allowed q.problem.languages_allowed q.language.id ≡ true
  pub in_rate :
      q.user.is_staff ≡ false → recent_count db now q.user.id q.mode < rate_limit settings q.mode
  pub judgeable : is_run q.mode ≡ false → is_some (active_package q.problem) ≡ true

check_request-Accepted :
    (settings : Settings) (q : Request) (now : ℕ) (db : Store)
    → check_request settings q now db ≡ ok tt
    → Accepted settings q now db
unfolding check_request
check_request-Accepted settings q now db e =
    let (size, e1) = >>-eq-ok (validate_source_code_size settings q.source_code) _ e in
    let (inputs, e2) = >>-eq-ok (validate_run_inputs q) _ e1 in
    let (access, e3) = >>-eq-ok (validate_problem_access db now q.user q.problem) _ e2 in
    let (language, e4) = >>-eq-ok (validate_language q.problem q.language) _ e3 in
    let (rate, pack) = >>-eq-ok (check_rate_limit settings db now q.user q.mode) _ e4 in
    record {
      small = ground (arith, size);
      run_input = λ r. ground (arith, inputs);
      no_input = λ r. ground (arith, inputs);
      access = ground (arith, access);
      enabled = ground (arith, language);
      language = ground (arith, language);
      in_rate = λ s. ground (arith, rate);
      judgeable = λ s. ground (arith, pack);
    }

recent_count-insert :
    (q : Request) (now : ℕ) (db : Store)
    → recent_count (insert_submission q (active_package q.problem) now db) now q.user.id q.mode
      ≡ suc (recent_count db now q.user.id q.mode)
unfolding recent_count insert_submission new_submission
recent_count-insert q now db = ground arith

-- A request that is accepted has passed every check: the size, the input of a run, the access, the
-- language, the rate, and the package; it adds its submission and one queued job with
-- no attempt used, and leaves the other rows as they are. A user who is no staff has then at most as
-- many recent submissions of the mode as the limit allows.
pub create_submission-Accepted :
    (settings : Settings) (q : Request) (now : ℕ) (db new : Store)
    → create_submission settings q now db ≡ ok new
    → Accepted settings q now db
      × (new.submissions ≡ new_submission q db.next_id now ∷ db.submissions)
      × ((j : JudgeJob) × (new.jobs ≡ j ∷ db.jobs)
          × (j.submission_id ≡ db.next_id)
          × (j.attempts ≡ 0))
      × (q.user.is_staff ≡ false
          → recent_count new now q.user.id q.mode ≤ rate_limit settings q.mode)
unfolding create_submission insert_submission new_submission new_job
create_submission-Accepted settings q now db new e =
    let (checked, done) = >>-eq-ok (check_request settings q now db) _ e in
    let accepted = check_request-Accepted settings q now db checked in
    let inserted = insert_submission q (active_package q.problem) now db in
    let same : inserted ≡ new = ok-injective _ _ done in
    let config =
      build_job_config db q.problem q.language.id (active_package q.problem) q.participation q.mode
        q.custom_input q.expected_output in
    let job =
      new_job (suc db.next_id) db.next_id (active_package q.problem) q.language.id config now in
    (
      accepted,
      ap (λ d. d.submissions) (sym same),
      (job, ap (λ d. d.jobs) (sym same), refl, refl),
      λ s.
          subst (λ d. recent_count d now q.user.id q.mode ≤ rate_limit settings q.mode) same
            (ground (arith, recent_count-insert q now db, accepted.in_rate s)),
    )
