-- ===== src/Ipcd.antt =====
-- ipcd/: the broker of the fabric.
pub mod Routes
pub mod Broker
pub mod Server
pub mod Bootstrap
