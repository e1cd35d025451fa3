-- ===== src/Daemon.antt =====
-- The daemons that connect to the broker, in what they share.
pub mod Bootstrap
