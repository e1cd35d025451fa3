-- ===== src/Ipc/Protocol.antt =====
-- shared/ipc/IpcProtocol.{h,cpp}: the vocabulary of the fabric.
pub mod Enum
pub mod Daemon
pub mod Cmd
pub mod Category
pub mod Flag
