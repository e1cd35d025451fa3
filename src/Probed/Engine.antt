-- ===== src/Probed/Engine.antt =====
-- probed/icmp/IcmpEngine.{h,cpp} with the rest of IcmpEngineHandler: the raw socket, its place in
-- epoll, and the reopening after a failure. What system calls answer comes with each operation:
-- the descriptor of a socket that opens, whether a change of epoll is accepted, and the answers of
-- `recvfrom` and `sendto`. Time is an argument, in nanoseconds of a clock that does not go back.
pub mod Settled
pub mod Armed
use nf_nms.Common.{
  ℕ, ◌+◌, List, [], ◌∷◌, ◌++◌, Option, none, some, Bool, true, false, if◌then◌else◌, not, ltb, ◌==◌,
}
use nf_nms.Util.Password.{is_empty}
use nf_nms.Ipc.Codec.{Endian}
use nf_nms.Probed.Icmp.{IcmpPacket, encode}
use nf_nms.Probed.Transport.{
  IcmpIoResult, would_block, peer_closed, buffer_full, error, TxFrame, IcmpConnection, connect,
  RxAnswer, TxAnswer, Sending, send_loop, write, handle_recv,
}

-- `interest` is what epoll waits for on the socket: none where it is not registered, else whether
-- EPOLLOUT is among it. `delivered` is what the router has been given, `wire` what the kernel has
-- taken to send.
pub record IcmpEngine : Type 0 where
  pub initialized : Bool
  pub next_reopen_at : ℕ
  pub socket : Option ℕ
  pub conn : Option IcmpConnection
  pub interest : Option Bool
  pub delivered : List (List ℕ × IcmpPacket)
  pub wire : List TxFrame

pub closed : IcmpEngine
closed = record {
  initialized = false;
  next_reopen_at = 0;
  socket = none;
  conn = none;
  interest = none;
  delivered = [];
  wire = [];
}

-- `REOPEN_BACKOFF`
abbrev pub reopen_backoff : ℕ
reopen_backoff = 1000000000

pub is_opened : IcmpEngine → Bool
is_opened s = elim s.socket [
  | none ↦ false
  | some fd ↦ elim s.conn [ none ↦ false | some c ↦ true ]
]

-- Without a socket there is nothing to take out of epoll.
pub close_connection : IcmpEngine → IcmpEngine
close_connection s = record s { conn = none; socket = none; interest = none; initialized = false }

pub init_socket : Option ℕ → IcmpEngine → Bool × IcmpEngine
init_socket opened s = elim s.socket [
  | some fd ↦ (true, s)
  | none ↦ elim opened [ none ↦ (false, s) | some fd ↦ (true, record s { socket = some fd }) ]
]

pub init_connection : IcmpEngine → Bool × IcmpEngine
unfolding connect
init_connection s = elim s.conn [
  | some c ↦ (true, s)
  | none ↦ elim s.socket [
    | none ↦ (false, s)
    | some fd ↦ (true, record s { conn = some (connect fd) })
  ]
]

-- The registration at the end of `init` and `reopen`.
pub registered : (added : Bool) → IcmpEngine → Bool × IcmpEngine
unfolding close_connection
registered added s =
    if added
    then (true, record s { interest = some false; initialized = true })
    else (false, close_connection s)

pub opening : (opened : Option ℕ) (added : Bool) → IcmpEngine → Bool × IcmpEngine
unfolding init_socket init_connection registered
opening opened added s =
    let (has_socket, s1) = init_socket opened s in
    let (has_conn, s2) = init_connection s1 in
    if not has_socket
    then (false, s1)
    else if not has_conn
    then (false, s2)
    else registered added s2

pub init : (epoll_made : Bool) (opened : Option ℕ) (added : Bool) → IcmpEngine → Bool × IcmpEngine
unfolding opening
init epoll_made opened added s =
    if s.initialized
    then (true, s)
    else if not epoll_made
    then (false, s)
    else opening opened added s

pub reopen : (opened : Option ℕ) (added : Bool) → IcmpEngine → Bool × IcmpEngine
unfolding opening
reopen opened added s = opening opened added (close_connection s)

-- The end of `enqueueFrame`, on what `write` has answered.
pub armed : (modified : Bool) → Bool × IcmpConnection → IcmpEngine → Bool × IcmpEngine
unfolding close_connection
armed modified (false, c) s = (false, record s { conn = some c })
armed modified (true, c) s =
    if modified
    then (true, record s { conn = some c; interest = some true })
    else (false, close_connection s)

pub enqueue_frame : (modified : Bool) (frame dst_ip : List ℕ) → IcmpEngine → Bool × IcmpEngine
unfolding armed
enqueue_frame modified frame dst_ip s = if is_empty frame then (false, s) else elim s.socket [
  | none ↦ (false, s)
  | some fd ↦ elim s.conn [ none ↦ (false, s) | some c ↦ armed modified (write c frame dst_ip) s ]
]

-- `egress`, and `sendPacket`, which always answers true.
pub egress : Endian → (modified : Bool) → Option IcmpPacket → List ℕ → IcmpEngine → IcmpEngine
unfolding enqueue_frame
egress e modified none dst_ip s = s
egress e modified (some packet) dst_ip s =
    if is_empty dst_ip
    then s
    else if is_empty (encode e packet)
    then s
    else (enqueue_frame modified (encode e packet) dst_ip s).1

-- After `recv` or `send` has failed the connection is closed.
pub after_recv : Bool × IcmpConnection × List (List ℕ × IcmpPacket) → IcmpEngine → Bool × IcmpEngine
unfolding close_connection
after_recv (ok, c, delivered) s =
    if ok
    then (true, record s { conn = some c; delivered = delivered })
    else (false, close_connection (record s { delivered = delivered }))

pub has_pending : List TxFrame → Bool
has_pending [] = false
has_pending (f ∷ queue) = true

-- The end of `handleSend`.
pub after_result : IcmpIoResult → (modified pending : Bool) → IcmpEngine → IcmpEngine
unfolding close_connection
after_result IcmpIoResult.ok modified pending s =
    if pending
    then s
    else if modified
    then record s { interest = some false }
    else close_connection s
after_result would_block modified pending s = s
after_result buffer_full modified pending s = s
after_result peer_closed modified pending s = close_connection s
after_result (error errno) modified pending s = close_connection s

-- `handleSend`, on what `send` has left.
pub after_send : (modified : Bool) → Sending → IcmpConnection → IcmpEngine → IcmpEngine
unfolding has_pending after_result
after_send modified t c s =
    after_result t.result modified (has_pending t.queue)
      (record s { conn = some (record c { tx_queue = t.queue }); wire = t.wire })

-- An event of epoll, with what system calls answer while it is handled.
pub record Ready : Type 0 where
  pub fd : ℕ
  pub is_close : Bool
  pub is_recv : Bool
  pub is_send : Bool
  pub rx_answers : List RxAnswer
  pub tx_answers : List TxAnswer
  pub modified : Bool

pub data Event : Type 0 where
  wakeup : Event
  ready : Ready → Event

module _ (e : Endian) (is_address : List ℕ → Bool) where
  pub send_part : Ready → IcmpConnection → IcmpEngine → IcmpEngine
  unfolding after_send
  send_part r c s =
      if r.is_send
      then after_send r.modified (send_loop is_address r.tx_answers c.tx_queue s.wire) c s
      else s

  pub recv_part : Ready → IcmpConnection → IcmpEngine → Bool × IcmpEngine
  unfolding after_recv
  recv_part r c s =
      if r.is_recv then after_recv (handle_recv e r.rx_answers c s.delivered) s else (true, s)

  -- The sending after the receiving, on the connection that is left.
  pub then_send : Ready → Bool × IcmpEngine → IcmpEngine
  unfolding send_part
  then_send r (going, s) =
      if not going then s else elim s.conn [ none ↦ s | some c ↦ send_part r c s ]

  pub own_event : Ready → IcmpConnection → IcmpEngine → IcmpEngine
  unfolding recv_part then_send close_connection
  own_event r c s = if r.is_close then close_connection s else then_send r (recv_part r c s)

  -- An event of another descriptor, or of a connection that is gone, is ignored.
  pub on_socket : Option ℕ → Option IcmpConnection → Ready → IcmpEngine → IcmpEngine
  unfolding own_event
  on_socket none conn r s = s
  on_socket (some fd) none r s = s
  on_socket (some fd) (some c) r s = if not (fd == r.fd) then s else own_event r c s

  pub handle_event : Event → IcmpEngine → IcmpEngine
  unfolding on_socket
  handle_event wakeup s = s
  handle_event (ready r) s = on_socket s.socket s.conn r s

  pub handle_all : List Event → IcmpEngine → IcmpEngine
  unfolding handle_event
  handle_all [] s = s
  handle_all (event ∷ events) s = handle_all events (handle_event event s)

  -- What `poll` does once the engine is open: the answer of `epoll_wait` is none where it fails. The
  -- answer of `poll`, false only then, is left out.
  pub after_wait : Option (List Event) → IcmpEngine → IcmpEngine
  unfolding handle_all
  after_wait none s = s
  after_wait (some events) s = handle_all events s

  pub poll :
      (now : ℕ) (opened : Option ℕ) (added : Bool) → Option (List Event) → IcmpEngine → IcmpEngine
  unfolding is_opened reopen after_wait
  poll now opened added events s =
      let (back, s') = reopen opened added (record s { next_reopen_at = now + reopen_backoff }) in
      if is_opened s
      then after_wait events s
      else if ltb now s.next_reopen_at
      then s
      else if back
      then after_wait events s'
      else s'
