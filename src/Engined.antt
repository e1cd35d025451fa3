-- ===== src/Engined.antt =====
-- engined/: the daemon that owns the configuration.
pub mod Commit
pub mod Heartbeat
pub mod Bootstrap
pub mod Admin
