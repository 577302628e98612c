-- ===== src/Judge.antt =====
-- apps/judge: the queue of judge jobs, the callbacks of the workers, and what they guarantee.
pub mod Leases
pub mod Gateway
pub mod Callbacks
pub mod Endpoints
pub mod Soundness
pub mod Machine
pub mod Ownership
pub mod Calls
pub mod Queue
pub mod Exclusive
pub mod Refresh
pub mod Retries
pub mod Rows
pub mod Standing
