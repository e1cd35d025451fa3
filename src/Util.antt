-- ===== src/Util.antt =====
-- shared/util: secrets and password hashes.
pub mod Base64
pub mod Secret
pub mod Password
