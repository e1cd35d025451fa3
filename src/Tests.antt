-- ===== src/Tests.antt =====
-- Witnesses: each theorem with hypotheses, applied to concrete data that meets them.
mod Ring
mod Server
mod Ipc
mod Client
mod Broker
mod Commits
mod Heartbeat
mod Converge
mod Daemons
mod Probed
mod Transport
mod Util
mod Mgmtd
mod Accounts
