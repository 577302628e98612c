-- ===== src/Fleet.antt =====
-- The judges that work for the site.
pub mod Judges
pub mod Monitoring
