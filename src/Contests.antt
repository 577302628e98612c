-- ===== src/Contests.antt =====
-- apps/contests/services: who may see, join and enter a contest, its problems, and its schedule.
pub mod Access
pub mod Joining
pub mod Entries
pub mod Problems
pub mod Lifecycle
