-- ===== src/Ipc.antt =====
-- shared/ipc: the frame protocol that the daemons speak over unix sockets.
pub mod Protocol
pub mod Message
pub mod Codec
pub mod Connection
pub mod Handler
pub mod Client
