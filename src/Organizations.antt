-- ===== src/Organizations.antt =====
-- apps/organizations: members, admins and membership requests.
pub mod Membership
pub mod Roles
