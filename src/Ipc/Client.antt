-- ===== src/Ipc/Client.antt =====
-- shared/ipc/IpcClient.{h,cpp} and IpcClientHandler.{h,cpp}: a daemon's end of the fabric. What a
-- system call answers comes with the operation that makes it. `delivered` lists the messages that
-- the handler has given to the daemon's `RxRouter`, which only queues them.
pub mod Open
pub mod Init
pub mod Receive
use nf_nms.Common.{
  ℕ, zero, suc, List, [], ◌∷◌, ◌++◌, Option, none, some, Bool, true, false, ◌||◌, if◌then◌else◌,
  ◌==◌, length,
}
use nf_nms.Ipc.Message.{IpcMessage}
use nf_nms.Ipc.Codec.{Endian, DecodeResult, encode, decode}
use nf_nms.Ipc.Connection.{IpcConnection, Answer, connect, write}
use nf_nms.Ipc.Handler
use nf_nms.Ipc.Handler.{Interest}

pub data State : Type 0 where
  disconnected connecting connected : State

-- The socket, once it is made, has a descriptor while it is open.
pub record IpcClient : Type 0 where
  pub state : State
  pub socket : Option (Option ℕ)
  pub conn : Option IpcConnection
  pub initialized : Bool
  pub delivered : List IpcMessage

pub close_connection : IpcClient → IpcClient
close_connection c = record c {
  state = disconnected;
  conn = none;
  socket = elim c.socket [ none ↦ none | some _ ↦ some none ];
}

-- What `UnixDomainSocket::connect` answers on a socket that is not open.
pub data ConnectResult : Type 0 where
  failed : ConnectResult
  at_once in_progress : ℕ → ConnectResult

pub init_socket : IpcClient → IpcClient
init_socket c = record c { socket = elim c.socket [ none ↦ some none | some s ↦ some s ] }

-- The rest of `connectServer`, with the state that the answer stands for.
pub opened : (rx_buf tx_buf : ℕ) → Bool → ℕ → State → IpcClient → Bool × IpcClient
opened rx_buf tx_buf added fd state c =
    let c' = record c {
      state = state;
      socket = some (some fd);
      conn = some (connect fd rx_buf tx_buf);
    } in
    if added then (true, c') else (false, close_connection c')

pub connect_on :
    (rx_buf tx_buf : ℕ) → Bool → ConnectResult → Option (Option ℕ) → IpcClient → Bool × IpcClient
connect_on rx_buf tx_buf added result none c = (false, c)
connect_on rx_buf tx_buf added result (some (some _)) c = (false, c)
connect_on rx_buf tx_buf added failed (some none) c = (false, c)
connect_on rx_buf tx_buf added (at_once fd) (some none) c =
    opened rx_buf tx_buf added fd connected c
connect_on rx_buf tx_buf added (in_progress fd) (some none) c =
    opened rx_buf tx_buf added fd connecting c

-- `connectServer`, where `added` is the answer of `epoll.add`. A socket that is open refuses.
pub connect_server : (rx_buf tx_buf : ℕ) → Bool → ConnectResult → IpcClient → Bool × IpcClient
connect_server rx_buf tx_buf added result c = connect_on rx_buf tx_buf added result c.socket c

-- The loop of `init` over the attempts that are left. Where the list of answers ends, the server
-- is not there.
pub init_loop : (rx_buf tx_buf : ℕ) → ℕ → List (ConnectResult × Bool) → IpcClient → Bool × IpcClient
init_loop rx_buf tx_buf zero answers c = (false, c)
init_loop rx_buf tx_buf (suc left) [] c =
    init_loop rx_buf tx_buf left [] (record c { socket = none })
init_loop rx_buf tx_buf (suc left) ((result, added) ∷ answers) c =
    let (done, c') = connect_server rx_buf tx_buf added result (init_socket c) in
    let rest = init_loop rx_buf tx_buf left answers (record c' { socket = none }) in
    if done then (true, record c' { initialized = true }) else rest

-- `init`, where `epoll_ready` is the answer of `initEpoll`.
pub init :
    (rx_buf tx_buf max_attempts : ℕ)
    → Bool
    → List (ConnectResult × Bool)
    → IpcClient
    → Bool × IpcClient
init rx_buf tx_buf max_attempts epoll_ready answers c =
    if c.initialized
    then (true, c)
    else if epoll_ready
    then init_loop rx_buf tx_buf max_attempts answers c
    else (false, c)

-- What `enqueueFrame` does with the answers of `write` and of `epoll.mod`.
pub queued : Bool → Bool × IpcConnection → IpcClient → Bool × IpcClient
queued armed (done, conn) c =
    if done
    then (let c' = record c { conn = some conn } in
        if armed then (true, c') else (false, close_connection c'))
    else (false, c)

pub enqueue_on :
    Bool → List ℕ → Option (Option ℕ) → State → Option IpcConnection → IpcClient → Bool × IpcClient
enqueue_on armed frame none state conn c = (false, c)
enqueue_on armed frame (some _) disconnected conn c = (false, c)
enqueue_on armed frame (some _) connecting conn c = (false, c)
enqueue_on armed frame (some _) connected none c = (false, c)
enqueue_on armed frame (some _) connected (some conn) c =
    if length frame == 0 then (false, c) else queued armed (write conn frame) c

pub enqueue_frame : Bool → List ℕ → IpcClient → Bool × IpcClient
enqueue_frame armed frame c = enqueue_on armed frame c.socket c.state c.conn c

-- `handleConnect`: the error that `getsockopt` reads, none where the call fails.
pub handle_connect : Option ℕ → Bool → Bool
handle_connect none registered = false
handle_connect (some so_error) registered = if so_error == 0 then registered else false

-- An event of epoll: of the wake-up descriptor, or of another with what its calls answer: the
-- error of the connect, the answers of `recv` and the bytes that wait, those of `send`, and of
-- `epoll.mod`.
pub data Source : Type 0 where
  wakeup : Source
  socket_event : ℕ → Option ℕ → List Answer → List ℕ → List Answer → Bool → Source

module _ (e : Endian) where
  pub egress : Bool → IpcMessage → IpcClient → IpcClient
  egress armed m c =
      if length (encode e (some m)) == 0 then c else (enqueue_frame armed (encode e (some m)) c).1

  pub taken : List IpcMessage → DecodeResult × Option IpcMessage → Bool × List IpcMessage
  taken delivered (DecodeResult.ok, some m) = (true, delivered ++ (m ∷ []))
  taken delivered (DecodeResult.ok, none) = (false, delivered)
  taken delivered (DecodeResult.need_more_data, _) = (false, delivered)
  taken delivered (DecodeResult.invalid_frame, _) = (false, delivered)
  taken delivered (DecodeResult.too_large, _) = (false, delivered)

  pub ingress : List IpcMessage → List ℕ → Bool × List IpcMessage
  ingress delivered frame =
      if length frame == 0 then (false, delivered) else taken delivered (decode e (some frame))

-- What the event does after `handleSend`.
pub after_send : Bool × Option Interest × IpcConnection × List ℕ → IpcClient → IpcClient
after_send (kept, interest, conn, wire) c =
    let c' = record c { conn = some conn } in if kept then c' else close_connection c'

-- What the event does after `handleRecv`, or with the connection as it is.
pub after_recv :
    List Answer
    → (registered is_send : Bool) → Bool × IpcConnection × List ℕ × List IpcMessage
    → IpcClient
    → IpcClient
after_recv outs registered is_send (kept, conn, left, delivered) c =
    let c' = record c { conn = some conn; delivered = delivered } in
    if kept
    then if is_send then after_send (Handler.handle_send registered outs conn []) c' else c'
    else close_connection c'

module _ (e : Endian) where
  -- `handleEvent` on its own descriptor, by the state and the connection.
  pub dispatch :
      Option ℕ
      → List Answer
      → List ℕ
      → List Answer
      → (registered is_close is_recv is_send : Bool) → State
      → Option IpcConnection
      → IpcClient
      → IpcClient
  dispatch so_error ins wire outs registered is_close is_recv is_send connecting conn c =
      if is_close || is_recv || is_send
      then (if handle_connect so_error registered
          then record c { state = connected }
          else close_connection c)
      else c
  dispatch so_error ins wire outs registered is_close is_recv is_send connected (some conn) c =
      if is_close
      then close_connection c
      else after_recv outs registered is_send
          (if is_recv
            then Handler.handle_recv e (ingress e) ins conn wire c.delivered
            else (true, conn, wire, c.delivered))
          c
  dispatch so_error ins wire outs registered is_close is_recv is_send connected none c = c
  dispatch so_error ins wire outs registered is_close is_recv is_send disconnected conn c = c

  pub own_event :
      Source → (is_close is_recv is_send : Bool) → Option (Option ℕ) → IpcClient → IpcClient
  own_event wakeup is_close is_recv is_send socket c = c
  own_event (socket_event fd so_error ins wire outs registered) is_close is_recv is_send none c = c
  own_event (socket_event fd so_error ins wire outs registered) is_close is_recv is_send (some none)
        c =
      c
  own_event (socket_event fd so_error ins wire outs registered) is_close is_recv is_send
        (some (some own)) c =
      if fd == own
      then dispatch so_error ins wire outs registered is_close is_recv is_send c.state c.conn c
      else c

  pub handle_event : Source → (is_close is_recv is_send : Bool) → IpcClient → IpcClient
  handle_event source is_close is_recv is_send c =
      own_event source is_close is_recv is_send c.socket c
