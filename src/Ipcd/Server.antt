-- ===== src/Ipcd/Server.antt =====
-- ipcd/ipc/IpcServer.cpp and the handlers of IpcServerHandler.cpp that it calls: what the broker
-- does with an event of epoll. The listener answers `accept`; what a socket holds and answers
-- comes with the event.
pub mod Open
use nf_nms.Common.{
  ℕ, suc, List, [], ◌∷◌, ◌++◌, Option, none, some, Bool, true, false, ◌||◌, if◌then◌else◌, leb,
  length,
}
use nf_nms.Ring.{ByteRingBuffer}
use nf_nms.Ipc.Codec.{Endian}
use nf_nms.Ipc.Connection.{IpcConnection, Answer, connect}
use nf_nms.Ipc.Handler
use nf_nms.Ipc.Handler.{Interest}
use nf_nms.Ipcd.Broker.{
  Broker, find_connection, put_connection, epoll_ctl, close_connection, ingress,
}

-- `IpcConfig`, as far as the server reads it.
pub record IpcConfig : Type 0 where
  pub max_connections : ℕ
  pub rx_buffer_size : ℕ
  pub tx_buffer_size : ℕ

-- What a call of `accept` answers: a descriptor, EINTR, or EAGAIN and every other errno, which
-- end the loop alike.
pub data Accepted : Type 0 where
  accepted : ℕ → Accepted
  interrupted stopped : Accepted

-- `connections.emplace`: an entry that is there already stays.
pub emplace : List IpcConnection → IpcConnection → List IpcConnection
emplace cs c = elim (find_connection cs c.fd) [ none ↦ c ∷ cs | some _ ↦ cs ]

-- What `handleAccept` does with the answer of `epoll.add`.
pub added : IpcConfig → ℕ → Bool × Broker → Broker
added cfg fd (ok, b) =
    if ok
    then record b {
      connections = emplace b.connections (connect fd cfg.rx_buffer_size cfg.tx_buffer_size);
    }
    else b

pub handle_accept : IpcConfig → List Accepted → Broker → Broker
handle_accept cfg [] b = b
handle_accept cfg (interrupted ∷ answers) b = handle_accept cfg answers b
handle_accept cfg (stopped ∷ answers) b = b
handle_accept cfg (accepted fd ∷ answers) b =
    if leb cfg.max_connections (length b.connections)
    then handle_accept cfg answers b
    else handle_accept cfg answers (added cfg fd (epoll_ctl b))

-- The receive ring of a connection, written back; the transmit ring is the broker's, since frames
-- that were routed meanwhile may have gone there.
pub store_rx : Broker → ℕ → ByteRingBuffer → Broker
store_rx b fd rx = elim (find_connection b.connections fd) [
  | none ↦ b
  | some conn ↦ record b { connections = put_connection b.connections (record conn { rx = rx }) }
]

pub received : ℕ → Bool × IpcConnection × List ℕ × Broker → Broker
received fd (kept, conn, left, b) =
    if kept then store_rx b fd conn.rx else close_connection (store_rx b fd conn.rx) fd

module _ (e : Endian) where
  -- `handleRecv`, with `wire` waiting in the socket.
  pub handle_recv : ℕ → List Answer → List ℕ → Broker → Broker
  handle_recv fd answers wire b = elim (find_connection b.connections fd) [
    | none ↦ b
    | some conn ↦ received fd (Handler.handle_recv e (ingress e fd) answers conn wire b)
  ]

pub sent : Broker → ℕ → Bool × Option Interest × IpcConnection × List ℕ → Broker
sent b fd (kept, interest, conn, wire) =
    let b' = record b { connections = put_connection b.connections conn } in
    if kept then b' else close_connection b' fd

-- `handleSend`, where `registered` is what `epoll.mod` answers if the transfer comes to it.
pub handle_send : ℕ → List Answer → Bool → Broker → Broker
handle_send fd answers registered b = elim (find_connection b.connections fd) [
  | none ↦ b
  | some conn ↦ sent b fd (Handler.handle_send registered answers conn [])
]

-- An event of epoll on a descriptor: the listener's, or a connection's with what its calls answer.
pub data Source : Type 0 where
  wakeup : Source
  listener : List Accepted → Source
  connection : ℕ → List Answer → List ℕ → List Answer → Bool → Source

module _ (e : Endian) (cfg : IpcConfig) where
  pub handle_event : Source → (is_close is_recv is_send : Bool) → Broker → Broker
  handle_event wakeup is_close is_recv is_send b = b
  handle_event (listener answers) is_close is_recv is_send b =
      if is_close then b else if is_recv then handle_accept cfg answers b else b
  handle_event (connection fd ins wire outs registered) is_close is_recv is_send b =
      elim (find_connection b.connections fd) [
        | none ↦ b
        | some _ ↦
            let after = if is_recv then handle_recv e fd ins wire b else b in
            if is_close
            then close_connection b fd
            else if is_send
            then handle_send fd outs registered after
            else after
      ]
