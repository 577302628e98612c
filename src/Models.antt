-- ===== src/Models.antt =====
-- The rows of the database, as records (the models.py packages of apps/), and the numbers in
-- which points and times are kept.
mod Numbers
mod Users
mod Judging
mod Contests
mod Problems
mod Database
unfoldable pub use Numbers.*
pub use Users.*
pub use Judging.*
unfoldable pub use Problems.*
pub use Database.*
pub use Contests.*
