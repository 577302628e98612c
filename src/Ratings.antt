-- ===== src/Ratings.antt =====
-- apps/ratings: the ranks that the ratings are calculated from.
pub mod Ties
pub mod Mass
pub mod Order
