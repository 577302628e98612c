-- ===== src/Pipeline.antt =====
-- The judging of submissions as a whole: every request that changes the tables is a step from one
-- database to the next, and what holds after any sequence of requests, in any order.
mod Steps
mod Invariant
mod Expiry
mod Refinement
mod Attempts
mod Rescue
pub use Steps.*
pub use Invariant.*
pub use Rescue.*
pub use Attempts.*
pub use Refinement.*
