-- ===== src/Shadow/Jobs.antt =====
-- apps/judge/services/shadow_job_service.py and apps/judge/models/shadow_job.py: the queue of replays.
-- The table of shadow jobs is all that the service writes. `locked` lists the rows that `skip_locked`
-- passes over.
use judgeloom_core.Base.{
  ℕ, suc, String, Bool, true, false, not, ◌&&◌, Option, none, some, List, [], ◌∷◌, leb, ◌==◌,
  if◌then◌else◌, is_some, first, select, update_where, contains, Result, ok, ◌>>◌, raise_if,
  value_error,
}
use judgeloom_core.Base.Int.{ℤ, pos, ltb_ℤ}
use judgeloom_core.Base.Sort.{sort_by}
use judgeloom_core.Models.{
  Reported, Submission, Package, Problem, JobConfig, JobStatus, claimed, is_queued,
  is_active_status, is_run, active_package, JudgeJob,
}
use judgeloom_core.Scoring.Cases.{ReportedCase}
use judgeloom_core.Judge.Leases.{lease_until, lease_before}

pub record ShadowJob : Type 0 where
  pub id : ℕ
  pub submission_id : ℕ
  pub pack : Option Package
  pub language_id : ℕ
  pub target_judge : Option ℕ
  pub claimed_by : Option ℕ
  pub status : JobStatus
  pub priority : ℤ
  pub attempts : ℕ
  pub config : JobConfig
  pub result : Option Reported
  pub case_results : List ReportedCase
  pub case_total : ℕ
  pub case_passed : ℕ
  pub total_points : ℤ
  pub error_message : String
  pub lease_expires_at : Option ℕ
  pub claimed_at : Option ℕ
  pub started_at : Option ℕ
  pub finished_at : Option ℕ
  pub created_at : ℕ

abbrev pub shadow_package : Option JudgeJob → Problem → Option Package
shadow_package none p = active_package p
shadow_package (some j) p = j.pack

-- The configuration of the judge job, or one of the problem's limits; a missing flag reads as false.
abbrev pub shadow_config : Option JudgeJob → Problem → Submission → JobConfig
shadow_config (some j) p s = j.config
shadow_config none p s = record {
  time_limit = p.time_limit;
  memory_limit = p.memory_limit;
  short_circuit = false;
  partial_score = false;
  mode = s.mode;
  custom_input = s.custom_input;
  expected_output = s.custom_expected_output;
  contest_points = none;
}

abbrev pub new_shadow_job : ℕ → Submission → Option Package → Option ℕ → JobConfig → ℕ → ShadowJob
new_shadow_job k s pack target config now = record {
  id = k;
  submission_id = s.id;
  pack = pack;
  language_id = s.language_id;
  target_judge = target;
  claimed_by = none;
  status = JobStatus.queued;
  priority = pos 0;
  attempts = 0;
  config = config;
  result = none;
  case_results = [];
  case_total = 0;
  case_passed = 0;
  total_points = pos 0;
  error_message = "";
  lease_expires_at = none;
  claimed_at = none;
  started_at = none;
  finished_at = none;
  created_at = now;
}

-- `create_for_submission`, with the key of the new row
abbrev pub create_for_submission :
    ℕ
    → Submission
    → Option JudgeJob
    → Problem
    → Option ℕ
    → ℕ
    → List ShadowJob
    → Result (List ShadowJob)
create_for_submission k s job p target now jobs = do
  let pack = shadow_package job p
  raise_if (not (is_some pack) && not (is_run s.mode))
      (value_error "No active test data package is available for this problem.")
  ok (new_shadow_job k s pack target (shadow_config job p s) now ∷ jobs)

abbrev pub is_stale_shadow : List ℕ → ℕ → ShadowJob → Bool
is_stale_shadow locked now j =
    is_active_status j.status && lease_before now j.lease_expires_at && not (contains j.id locked)

abbrev pub requeued_shadow : ShadowJob → ShadowJob
requeued_shadow j = record j {
  status = JobStatus.queued;
  claimed_by = none;
  claimed_at = none;
  started_at = none;
  lease_expires_at = none;
  error_message = "Shadow lease expired; job requeued.";
}

-- The first statement of `claim_job`
unfoldable pub requeue_stale : List ℕ → ℕ → List ShadowJob → List ShadowJob
requeue_stale locked now jobs = update_where (is_stale_shadow locked now) requeued_shadow jobs

-- `models_target_judge`
abbrev pub targets : Option ℕ → ℕ → Bool
targets none judge = true
targets (some k) judge = k == judge

abbrev pub shadow_order : ShadowJob → ShadowJob → Bool
shadow_order a b =
    if ltb_ℤ b.priority a.priority
    then true
    else (if ltb_ℤ a.priority b.priority then false else leb a.created_at b.created_at)

abbrev pub may_replay : List ℕ → ℕ → List ℕ → ShadowJob → Bool
may_replay locked judge languages j =
    is_queued j.status
    && contains j.language_id languages
    && targets j.target_judge judge
    && not (contains j.id locked)

unfoldable pub next_shadow : List ℕ → ℕ → List ℕ → List ShadowJob → Option ShadowJob
next_shadow locked judge languages jobs =
    first (sort_by shadow_order (select (may_replay locked judge languages) jobs))

abbrev pub claimed_shadow : ℕ → ℕ → ShadowJob → ShadowJob
claimed_shadow judge now j = record j {
  status = claimed;
  claimed_by = some judge;
  claimed_at = some now;
  attempts = suc j.attempts;
  lease_expires_at = lease_until now;
}

abbrev pub save_shadow : ShadowJob → List ShadowJob → List ShadowJob
save_shadow j jobs = update_where (λ r. r.id == j.id) (λ _. j) jobs

abbrev pub take_shadow :
    ℕ → ℕ → Option ShadowJob → List ShadowJob → List ShadowJob × Option ShadowJob
take_shadow judge now none jobs = (jobs, none)
take_shadow judge now (some j) jobs =
    let taken = claimed_shadow judge now j in (save_shadow taken jobs, some taken)

-- `claim_job`
unfoldable pub claim_shadow :
    List ℕ → ℕ → List ℕ → ℕ → List ShadowJob → List ShadowJob × Option ShadowJob
unfolding requeue_stale next_shadow
claim_shadow locked judge languages now jobs =
    let fresh = requeue_stale locked now jobs in
    take_shadow judge now (next_shadow locked judge languages fresh) fresh
