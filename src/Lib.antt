-- ===== src/Lib.antt =====
-- The message fabric of the Pretzel network management system.
--
-- The system is a family of daemons that talk over one IPC fabric: mgmtd serves the web
-- interface, engined owns the configuration and the store, authd, probed, collectord, topologyd
-- and apid do the work, and ipcd is the broker that every daemon connects to and that forwards
-- each frame to its destination. shared/ holds what all of them link. A frame is a header of 16
-- bytes and a payload; each end of a connection keeps a receive and a transmit ring of bytes.
--
-- Common: Boolean tests, lists over the native numbers, and `size_t` arithmetic (`add_size`,
--   `sub_size` wrap at 2 ^ 64).
-- Ring: shared/algorithm/ByteRingBuffer. One function per member function; `write` and `read`
--   loop on fuel, one more than the number of bytes asked for, and each turn moves a byte or
--   stops. Ring/Inv has the invariant, Ring/Contents the queue of bytes that a ring stands for.
-- Ipc/Protocol: shared/ipc/IpcProtocol, the enumerations `IpcDaemon`, `IpcCmd` and `IpcFlag` with
--   their wire values, names and categories. An enum class can hold a value without an
--   enumerator: that is the constructor `unnamed`.
-- Ipc/Message and Ipc/Codec: IpcMessage and IpcCodec. The byte order of the host is the parameter
--   `Endian`; sender and receiver may differ.
-- Ipc/Connection: IpcConnection. The kernel is a list of answers to the calls of `recv` or
--   `send`, one for each call, and the bytes that wait in the socket or that it has taken. A list
--   that has run out stands for EAGAIN.
-- Ipc/Handler: IpcHandler, which cuts frames out of the receive ring. The virtual function
--   `ingress` is a parameter over a state of its own; the loop has as fuel one more than the
--   bytes held, and each frame takes at least one.
-- Ipc/Client: shared/ipc/IpcClient with IpcClientHandler, the end of the fabric that the daemons
--   have. The attempts of `init` are a recursion on the configured number.
-- Ipcd/Routes: the runtime table of ipcd/ipc/IpcServerHandler: which descriptor each daemon is
--   reached through, its generation and how far it has come.
-- Ipcd/Broker: the rest of IpcServerHandler with IpcServer::enqueueFrame and ipcd/router: a frame
--   that has been received is decoded, its sender is checked against the runtime table, and it is
--   queued for the bootstrap service or for the connections it is addressed to. The answers of
--   `epoll_ctl` are a list in the state.
-- Ipcd/Server: ipcd/ipc/IpcServer and the handlers that its events call. A frame that a connection
--   sends to itself and whose registration epoll refuses destroys the connection while it is being
--   drained; here the drain goes on with the ring that the connection had.
-- Ipcd/Bootstrap: ipcd/service/bootstrap/BootstrapService and the loop of IpcdServiceManager. The
--   loop's fuel counts two turns for an event and one for an action. The JSON library is a
--   parameter that may throw on the version of a report; nothing catches that, and it ends the
--   loop.
-- Engined/Commit: engined/service/commit/CommitService, the queue of commits. The JSON parser,
--   the configuration tree and the database are parameters.
-- Engined/Heartbeat: engined/service/heartbeat/HeartbeatService. Time is an argument, in ticks of a
--   clock that does not go back. Heartbeat/Answers and Heartbeat/Report follow a
--   round from its requests to its report.
-- Engined/Bootstrap: engined/service/bootstrap/BootstrapService, the convergence of the service
--   daemons onto a version, at the start and at a reload. JSON is a parameter.
-- Ipcd/Broker/Hello and Ipcd/Bootstrap/Hello: a ClientHello from its frame to the queued answer.
-- Daemon/Bootstrap: service/bootstrap/BootstrapService of authd, of which collectord, topologyd and
--   probed have copies. Daemon/Bootstrap/Handshake puts it together with the broker.
-- Mgmtd/Bootstrap: mgmtd/service/bootstrap/BootstrapService, with the reload status of
--   mgmtd/service/MgmtdServiceManager. Mgmtd/Bootstrap/Outcome puts it together with engined. JSON
--   is a parameter.
-- Probed/Icmp: probed/icmp/IcmpPacket and IcmpCodec. The loop that folds the checksum's carries has
--   two rounds of fuel, which are enough for a sum of 32 bits.
-- Probed/Transport: probed/icmp/IcmpConnection and the receiving half of IcmpEngineHandler. The
--   kernel is a list of answers, as in Ipc/Connection.
-- Probed/Engine: probed/icmp/IcmpEngine and the rest of IcmpEngineHandler.
-- Probed/Sweep: probed/service/status/icmp/IcmpService, the session of echo requests and replies,
--   with the poll of probed/service/ProbedServiceManager. A batch is a recursion on the room that
--   it has left. Probed/Sweep/Polls reads the clock for the poll and again for the batch.
-- Util: shared/util/Secret and PasswordHash. AES-GCM, PBKDF2, SHA-256, the random bytes, the key
--   file, `atoi` and `std::to_string` are parameters.
-- Common/Dict: maps whose keys are texts, as lists of entries.
-- Mgmtd/Auth: mgmtd/service/auth/AuthService, the accounts, the sessions and the throttle on
--   passwords. The database, the configuration, OpenSSL and the order of an `unordered_map` are
--   the record `Platform`. The delay doubles in a recursion on the rounds that are left.
-- Mgmtd/Web: mgmtd/service/web/WebService and WebUtil.h, the gates before the handlers;
--   Mgmtd/Web/Routes is the route table.
-- Mgmtd/Accounts: mgmtd/service/web/controller/AuthController and UserController, and the end of a
--   SAML sign-in in SsoController. Mgmtd/Accounts/Change puts it together with engined's table.
-- Mgmtd/Serve: a request through the gates to the handlers that change sessions.
-- Engined/Admin: engined/service/admin/AdminService, the only writer of the accounts.
-- Tests: runs on concrete inputs.
--
-- Not modelled: log lines; sockets, epoll and threads beyond what is named above; the HTTP server,
-- gRPC, LDAP and database code, which calls libraries that are not in the repository; the web client.
-- A payload whose array has an entry that is not an object makes `CommitService::handleAction`
-- throw from the JSON library; such payloads are outside the type `Parsed`.
pub mod Common
pub mod Ring
pub mod Ipc
pub mod Ipcd
pub mod Engined
pub mod Daemon
pub mod Probed
pub mod Util
pub mod Mgmtd
mod Tests
