-- ===== src/Shadow.antt =====
-- apps/judge/services/shadow_job_service.py: replays of a submission on another judge, which score
-- nothing.
pub mod Jobs
pub mod Callbacks
pub mod Outcome
pub mod Exclusive
