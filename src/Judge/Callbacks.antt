-- ===== src/Judge/Callbacks.antt =====
-- apps/judge/services/judge_result_service.py: what a worker's callbacks do to its job and to the
-- submission. A callback that raises leaves the database as it was.
mod Locks
mod Cases
mod Grading
mod Endings
unfoldable pub use Locks.*
unfoldable pub use Cases.*
unfoldable pub use Grading.*
unfoldable pub use Endings.*
