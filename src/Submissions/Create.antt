-- ===== src/Submissions/Create.antt =====
-- `create_submission` of apps/submissions/services/submission_service.py, with its checks.
mod Guards
mod Rows
mod Requests
unfoldable pub use Guards.*
unfoldable pub use Rows.*
unfoldable pub use Requests.*
