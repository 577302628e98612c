-- ===== src/Shadow/Callbacks.antt =====
-- The callbacks on a replay (apps/judge/services/shadow_job_service.py).
use judgeloom_core.Base.{
  ℕ, String, Bool, true, false, not, Option, none, some, List, [], ◌∷◌, ◌==◌, if◌then◌else◌, is_id,
  first, select, length, count_where, Result, ok, err, ◌>>=◌, ◌>>◌, raise_if, permission_denied,
  judge_job_conflict, not_found,
}
use judgeloom_core.Base.Int.{ℤ, pos, ◌+ℤ◌}
use judgeloom_core.Models.{
  ac, ce, ie, Reported, known, running, succeeded, failed, is_active_status,
}
use judgeloom_core.Scoring.Cases.{ReportedCase}
use judgeloom_core.Judge.Leases.{lease_until, lease_over}
use judgeloom_core.Shadow.Jobs.{ShadowJob, save_shadow}

abbrev pub found_shadow : Option ShadowJob → Result ShadowJob
found_shadow none = err (not_found "ShadowJob matching query does not exist.")
found_shadow (some j) = ok j

-- `_lock`
abbrev pub lock_shadow : ℕ → List ShadowJob → Result ShadowJob
lock_shadow k jobs = found_shadow (first (select (λ j. j.id == k) jobs))

-- `_assert_owned`
abbrev pub assert_shadow_owned : ShadowJob → ℕ → ℕ → Result (Unit {0})
assert_shadow_owned j judge now = do
  raise_if (not (is_id j.claimed_by judge))
      (permission_denied "This shadow job is claimed by another judge.")
  raise_if (lease_over now j.lease_expires_at)
      (judge_job_conflict "The shadow job lease has expired.")
  raise_if (not (is_active_status j.status)) (judge_job_conflict "The shadow job is not active.")

-- `started_at or timezone.now()`
abbrev pub first_start : Option ℕ → ℕ → Option ℕ
first_start none now = some now
first_start (some t) now = some t

abbrev pub running_shadow : ℕ → ShadowJob → ShadowJob
running_shadow now j = record j {
  status = running;
  started_at = first_start j.started_at now;
  lease_expires_at = lease_until now;
}

abbrev pub is_accepted_case : ReportedCase → Bool
is_accepted_case c = elim c.status [ known ac ↦ true | _ ↦ false ]

abbrev pub recorded_shadow : ℕ → List ReportedCase → ShadowJob → ShadowJob
recorded_shadow now cases j = record (running_shadow now j) {
  case_results = cases;
  case_total = length cases;
  case_passed = count_where is_accepted_case cases;
}

-- The verdict of the first case that is not accepted.
abbrev pub first_failure : List ReportedCase → Reported
first_failure [] = known ac
first_failure (c ∷ cs) = if is_accepted_case c then first_failure cs else c.status

abbrev pub reported_or_ie : Option Reported → Reported
reported_or_ie none = known ie
reported_or_ie (some r) = r

abbrev pub shadow_result : List ReportedCase → Option Reported → Reported
shadow_result [] payload = reported_or_ie payload
shadow_result (c ∷ cs) payload = first_failure (c ∷ cs)

abbrev pub sum_case_points : List ReportedCase → ℤ
sum_case_points [] = pos 0
sum_case_points (c ∷ cs) = c.points +ℤ sum_case_points cs

unfoldable pub finished_shadow : ℕ → Option Reported → String → ShadowJob → ShadowJob
finished_shadow now payload message j = record j {
  status = succeeded;
  result = some (shadow_result j.case_results payload);
  total_points = sum_case_points j.case_results;
  case_total = length j.case_results;
  case_passed = count_where is_accepted_case j.case_results;
  error_message = message;
  finished_at = some now;
  lease_expires_at = none;
}

abbrev pub shadow_failure : Reported → Reported
shadow_failure (known ce) = known ce
shadow_failure _ = known ie

abbrev pub failed_shadow : ℕ → Reported → String → ShadowJob → ShadowJob
failed_shadow now reported message j = record j {
  status = failed;
  result = some (shadow_failure reported);
  error_message = message;
  finished_at = some now;
  lease_expires_at = none;
}

-- What the four callbacks do once the job is locked.
pub data ShadowCallback : Type 0 where
  starts : ShadowCallback
  reports : List ReportedCase → ShadowCallback
  finishes : Option Reported → String → ShadowCallback
  fails : Reported → String → ShadowCallback

unfoldable pub moved_shadow : ℕ → ShadowCallback → ShadowJob → ShadowJob
unfolding finished_shadow
moved_shadow now starts j = running_shadow now j
moved_shadow now (reports cases) j = recorded_shadow now cases j
moved_shadow now (finishes payload message) j = finished_shadow now payload message j
moved_shadow now (fails reported message) j = failed_shadow now reported message j

-- `start`, `record_cases`, `finish` and `fail`: lock the job, check its owner, save it.
unfoldable pub call_shadow : ℕ → ℕ → ℕ → ShadowCallback → List ShadowJob → Result (List ShadowJob)
unfolding moved_shadow
call_shadow k judge now c jobs = lock_shadow k jobs >>= λ j.
    assert_shadow_owned j judge now >> ok (save_shadow (moved_shadow now c j) jobs)
