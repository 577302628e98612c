-- ===== src/Accounts.antt =====
-- apps/accounts: passwords, logins, access tokens and bans.
pub mod Rows
pub mod Libraries
pub mod Tokens
pub mod Identity
pub mod Sessions
pub mod Versions
pub mod Revocation
pub mod Logins
