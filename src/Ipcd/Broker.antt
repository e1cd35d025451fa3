-- ===== src/Ipcd/Broker.antt =====
-- ipcd/ipc/IpcServerHandler.cpp, IpcServer::enqueueFrame, ipcd/router/IpcdRxRouter.cpp,
-- ipcd/router/IpcdTxRouter.cpp and the queues of ipcd/service/IpcdServiceManager.cpp: how a frame
-- that has been received is routed. Pointers that IpcdCore::onInit sets are not null. The state
-- has the answers of `epoll_ctl`, one for each call; where the list ends, calls succeed.
pub mod Table
pub mod Safety
pub mod Delivery
pub mod Queues
pub mod Broadcast
pub mod Hello
use nf_nms.Common.{
  ℕ, List, [], ◌∷◌, ◌++◌, Option, none, some, Bool, true, false, ◌||◌, if◌then◌else◌, ◌==◌, length,
}
use nf_nms.Ipc.Protocol.Daemon.{IpcDaemon, daemon_eq}
use nf_nms.Ipc.Protocol.Cmd.{IpcCmd}
use nf_nms.Ipc.Protocol.Flag.{IpcFlag, has_flag}
use nf_nms.Ipc.Message.{IpcMessage, get_src, get_dst, get_cmd}
use nf_nms.Ipc.Codec.{Endian, DecodeResult, encode, decode}
use nf_nms.Ipc.Connection.{IpcConnection, write}
use nf_nms.Ipcd.Routes.{RuntimeState, RuntimeTable, find, bind_route, find_route, remove_route}

-- The events and actions of the bootstrap service, with their messages.
pub data BootstrapEvent : Type 0 where
  receive_client_hello receive_sync_request receive_runtime_ready : IpcMessage → BootstrapEvent

pub data BootstrapAction : Type 0 where
  send_server_hello send_sync_response : IpcMessage → BootstrapAction

-- The server's connections, the handler's table and the service manager's queues.
pub record Broker : Type 0 where
  pub connections : List IpcConnection
  pub table : RuntimeTable
  pub events : List BootstrapEvent
  pub actions : List BootstrapAction
  pub epoll : List Bool

-- `m_connections.find(fd)`
unfoldable pub find_connection : List IpcConnection → ℕ → Option IpcConnection
find_connection [] fd = none
find_connection (c ∷ cs) fd = if c.fd == fd then some c else find_connection cs fd

-- A write through the iterator: the connection of the same descriptor is replaced.
pub put_connection : List IpcConnection → IpcConnection → List IpcConnection
put_connection [] c' = []
put_connection (c ∷ cs) c' = if c.fd == c'.fd then c' ∷ cs else c ∷ put_connection cs c'

-- `m_connections.erase(it)`
pub erase : List IpcConnection → ℕ → List IpcConnection
erase [] fd = []
erase (c ∷ cs) fd = if c.fd == fd then cs else c ∷ erase cs fd

-- One call of `epoll_ctl`.
pub answer : Broker → List Bool → Bool × Broker
answer b [] = (true, b)
answer b (ok ∷ later) = (ok, record b { epoll = later })

pub epoll_ctl : Broker → Bool × Broker
epoll_ctl b = answer b b.epoll

pub close_connection : Broker → ℕ → Broker
close_connection b fd = record b {
  connections = erase b.connections fd;
  table = remove_route b.table fd;
}

-- What `enqueueFrame` does with the answer of `epoll.mod`.
pub armed : ℕ → Bool × Broker → Bool × Broker
armed fd (ok, b) = if ok then (true, b) else (false, close_connection b fd)

pub queued : Broker → ℕ → Bool × IpcConnection → Bool × Broker
queued b fd (done, conn) =
    if done
    then armed fd (epoll_ctl (record b { connections = put_connection b.connections conn }))
    else (false, b)

pub enqueue_frame : Broker → ℕ → List ℕ → Bool × Broker
enqueue_frame b fd frame = elim (find_connection b.connections fd) [
  | none ↦ (false, b)
  | some conn ↦ if length frame == 0 then (false, b) else queued b fd (write conn frame)
]

module _ (e : Endian) where
  pub send_frame : Broker → ℕ → IpcMessage → Bool × Broker
  send_frame b fd m =
      if length (encode e (some m)) == 0 then (false, b) else enqueue_frame b fd (encode e (some m))

  pub unicast : Broker → IpcMessage → Broker
  unicast b m = elim (find_route b.table (get_dst m)) [ none ↦ b | some fd ↦ (send_frame b fd m).1 ]

-- `daemon == src || daemon == Ipcd || daemon == Broadcast`
unfoldable pub is_skipped : IpcDaemon → IpcDaemon → Bool
is_skipped src daemon =
    daemon_eq daemon src || daemon_eq daemon IpcDaemon.ipcd || daemon_eq daemon IpcDaemon.broadcast

-- The loop of `broadcast` over the keys of the table. The loop reads the entries while it runs: a
-- connection that is closed on the way has lost its routes.
pub broadcast_loop : List ℕ → IpcDaemon → Broker → RuntimeTable → Broker
broadcast_loop frame src b [] = b
broadcast_loop frame src b ((daemon, _) ∷ keys) = elim (find_route b.table daemon) [
  | none ↦ broadcast_loop frame src b keys
  | some fd ↦
      if is_skipped src daemon
      then broadcast_loop frame src b keys
      else broadcast_loop frame src (enqueue_frame b fd frame).1 keys
]

module _ (e : Endian) where
  pub broadcast : Broker → IpcMessage → Broker
  broadcast b m =
      if length (encode e (some m)) == 0
      then b
      else broadcast_loop (encode e (some m)) (get_src m) b b.table

  pub egress : Broker → IpcMessage → Broker
  egress b m =
      if daemon_eq (get_dst m) IpcDaemon.broadcast || has_flag m.header.flags IpcFlag.broadcast
      then broadcast b m
      else unicast e b m

  -- `IpcdRxRouter::handleIpcMessage`, by the command: the bootstrap commands are the broker's own,
  -- as `IpcdEventFactory::create` reads them; the rest goes on to `IpcdTxRouter`.
  pub rx_route : Broker → IpcMessage → IpcCmd → Broker
  rx_route b m IpcCmd.client_hello = record b { events = b.events ++ (receive_client_hello m ∷ []) }
  rx_route b m IpcCmd.sync_request = record b { events = b.events ++ (receive_sync_request m ∷ []) }
  rx_route b m IpcCmd.runtime_ready = record b {
    events = b.events ++ (receive_runtime_ready m ∷ []);
  }
  rx_route b m _ = egress b m

  -- What `ingress` does with the answer of `bindRoute`.
  pub bound : Broker → IpcMessage → Bool × RuntimeTable → Bool × Broker
  bound b m (accepted, table) =
      if accepted then (true, rx_route (record b { table = table }) m (get_cmd m)) else (false, b)

  pub decoded : Broker → ℕ → DecodeResult × Option IpcMessage → Bool × Broker
  decoded b fd (DecodeResult.ok, some m) = bound b m (bind_route b.table (get_src m) fd)
  decoded b fd (DecodeResult.ok, none) = (false, b)
  decoded b fd (DecodeResult.need_more_data, _) = (false, b)
  decoded b fd (DecodeResult.invalid_frame, _) = (false, b)
  decoded b fd (DecodeResult.too_large, _) = (false, b)

  pub ingress : ℕ → Broker → List ℕ → Bool × Broker
  ingress fd b frame =
      if length frame == 0 then (false, b) else decoded b fd (decode e (some frame))
