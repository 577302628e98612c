-- ===== src/Submissions.antt =====
-- apps/submissions/services/submission_service.py: creating submissions and runs, judging them
-- again, and who may see or change them.
pub mod Create
pub mod Rejudge
pub mod Access
pub mod Checks
pub mod Reset
pub mod Reports
pub mod Progress
