-- ===== src/Tests.antt =====
-- Runs of the model on small databases, and an instance of each result.
pub mod Data
mod Accounts
mod Packages
mod Ratings
mod Judging
mod Scores
mod Standings
mod Requests
mod Entering
mod Community
mod Replays
mod Fleet
mod Catalog
