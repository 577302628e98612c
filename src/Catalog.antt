-- ===== src/Catalog.antt =====
-- The problems that users see, and their statistics.
pub mod Problems
pub mod Listing
pub mod Tags
pub mod Tagging
