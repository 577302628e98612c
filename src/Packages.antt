-- ===== src/Packages.antt =====
-- Test data packages (apps/problems/services/package_service.py).
pub mod Json
pub mod Paths
pub mod Archive
pub mod Cases
pub mod Files
pub mod Groups
pub mod Imports
pub mod Keys
pub mod Active
pub mod Versions
pub mod Outcome
pub mod SafeNames
pub mod Safety
pub mod Checked
