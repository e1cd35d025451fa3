-- ===== src/Probed.antt =====
-- probed: the ICMP codec, the raw socket and the reachability sweep.
pub mod Icmp
pub mod Sweep
pub mod Transport
pub mod Engine
