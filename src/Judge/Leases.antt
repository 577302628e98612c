-- ===== src/Judge/Leases.antt =====
-- What a lease on a judge job is, and who holds it (judge_result_service.py, `_assert_owned` and
-- `_extend_lease`; judge_gateway_service.py, the query for stale jobs). A time is a number of
-- microseconds, and one request reads the clock once.
use judgeloom_core.Base.{
  ℕ, ◌+◌, ◌*◌, Bool, true, false, not, ◌&&◌, Option, none, some, ltb, leb, is_id, Result,
  permission_denied, judge_job_conflict, raise_if, ◌>>◌,
}
use judgeloom_core.Models.{JudgeJob, is_active_status, second}

abbrev pub lease_seconds : ℕ
lease_seconds = 60

abbrev pub lease_until : ℕ → Option ℕ
lease_until now = some (now + lease_seconds * second)

-- `lease_expires_at is None or lease_expires_at <= now`
abbrev pub lease_over : ℕ → Option ℕ → Bool
lease_over now none = true
lease_over now (some t) = leb t now

-- `lease_expires_at__lt=now`: a missing lease passes no comparison.
abbrev pub lease_before : ℕ → Option ℕ → Bool
lease_before now none = false
lease_before now (some t) = ltb t now

-- `_assert_owned`
abbrev pub assert_owned : JudgeJob → ℕ → ℕ → Result (Unit {0})
assert_owned job judge now = do
  raise_if (not (is_id job.claimed_by judge))
      (permission_denied "This job is claimed by another judge.")
  raise_if (lease_over now job.lease_expires_at)
      (judge_job_conflict "The judge job lease has expired.")
  raise_if (not (is_active_status job.status)) (judge_job_conflict "The judge job is not active.")

-- A claimed or running job whose lease has run out.
abbrev pub is_stale : ℕ → JudgeJob → Bool
is_stale now job = is_active_status job.status && lease_before now job.lease_expires_at
