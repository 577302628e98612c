-- ===== src/Content.antt =====
-- apps/content: the comments of a post and their votes.
pub mod Comments
pub mod Votes
pub mod Paths
