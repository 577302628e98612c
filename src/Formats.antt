-- ===== src/Formats.antt =====
-- apps/contests/formats: the scoring formats, the registry, and the ranking of a contest.
pub mod Common
pub mod Default
pub mod Icpc
pub mod Ioi
pub mod Atcoder
pub mod Ecoo
pub mod Registry
pub mod Locality
pub mod Penalties
pub mod BestPoints
