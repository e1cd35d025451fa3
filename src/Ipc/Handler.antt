-- ===== src/Ipc/Handler.antt =====
-- shared/ipc/IpcHandler.{h,cpp}: frames cut out of the receive ring. `ingress`, the virtual
-- function, is a parameter over a state of the handler's own; epoll is the answer of its `mod`.
pub mod Split
pub mod Drain
pub mod Keep
use nf_nms.Common.{
  ℕ, zero, suc, List, Option, none, some, Bool, true, false, if◌then◌else◌, ltb, leb, ◌==◌, ◌||◌,
  length,
}
use nf_nms.Ring
use nf_nms.Ring.{ByteRingBuffer}
use nf_nms.Ipc.Codec.{Endian, PeekResult, peek_frame_size, header_len, max_frame_size}
use nf_nms.Ipc.Connection.{
  IpcConnection, Answer, ok, would_block, peer_closed, buffer_full, error, IoResult, recv, send,
}

-- What the loop of `drainRxFrames` finds at the front of the ring: not enough for a frame, a
-- header that is refused, or a frame of so many bytes.
pub data Look : Type 0 where
  wait reject : Look
  frame : ℕ → Look

-- The guards on the size that the header announces, in `held` bytes.
pub look_size : ℕ → PeekResult × ℕ → Look
look_size held (PeekResult.need_more_data, n) = wait
look_size held (PeekResult.invalid_frame, n) = reject
look_size held (PeekResult.ok, n) =
    if n == 0 || ltb max_frame_size n then reject else if ltb held n then wait else frame n

pub look : Endian → ByteRingBuffer → Look
look e rx =
    if ltb (Ring.readable rx) header_len
    then wait
    else if ltb (length (Ring.peek rx header_len)) header_len
    then wait
    else look_size (Ring.readable rx) (peek_frame_size e (some (Ring.peek rx header_len)))

-- The frame's bytes: in place where they are contiguous, and copied where they go round the end.
pub take_frame : ByteRingBuffer → ℕ → Option (List ℕ)
take_frame rx n =
    if leb n (Ring.read_len rx)
    then some (Ring.slice rx.buffer rx.head n)
    else if ltb (length (Ring.peek rx n)) n
    then none
    else some (Ring.peek rx n)

module _ {S : Type 0} (e : Endian) (ingress : S → List ℕ → Bool × S) where
  -- `drainRxFrames`, on fuel: the result, the ring and the handler's state.
  pub drain_loop : ℕ → ByteRingBuffer → S → Bool × ByteRingBuffer × S
  drain_loop zero rx s = (true, rx, s)
  drain_loop (suc fuel) rx s = elim (look e rx) [
    | wait ↦ (true, rx, s)
    | reject ↦ (false, rx, s)
    | frame n ↦ elim (take_frame rx n) [
      | none ↦ (false, rx, s)
      | some bytes ↦
          let (accepted, s') = ingress s bytes in
          let rest = drain_loop fuel (Ring.consume rx n) s' in
          if accepted then rest else (false, rx, s')
    ]
  ]

  pub drain_rx_frames : ByteRingBuffer → S → Bool × ByteRingBuffer × S
  drain_rx_frames rx s = drain_loop (suc (Ring.readable rx)) rx s

  drained : IpcConnection → List ℕ → S → Bool × IpcConnection × List ℕ × S
  drained conn wire s =
      let (kept, rx, s') = drain_rx_frames conn.rx s in (kept, record conn { rx = rx }, wire, s')

  -- The switch of `handleRecv` on the result of `recv`.
  after_recv : IoResult → IpcConnection → List ℕ → S → Bool × IpcConnection × List ℕ × S
  unfolding drained
  after_recv ok conn wire s = drained conn wire s
  after_recv would_block conn wire s = drained conn wire s
  after_recv peer_closed conn wire s = (false, conn, wire, s)
  after_recv buffer_full conn wire s = (false, conn, wire, s)
  after_recv error conn wire s = (false, conn, wire, s)

  -- `handleRecv`: whether the connection stays open, the connection, what is left in the socket,
  -- and the handler's state.
  pub handle_recv : List Answer → IpcConnection → List ℕ → S → Bool × IpcConnection × List ℕ × S
  unfolding after_recv
  handle_recv answers conn wire s =
      let (t, conn') = recv answers conn wire in after_recv t.result conn' t.wire s

-- The events that a descriptor is registered for, beside EPOLLRDHUP.
pub data Interest : Type 0 where
  reading reading_writing : Interest

-- The switch of `handleSend` on the result of `send`, where `registered` is the answer of
-- `epoll.mod`.
after_send :
    Bool → IoResult → IpcConnection → List ℕ → Bool × Option Interest × IpcConnection × List ℕ
after_send registered ok conn wire =
    (registered, if registered then some reading else none, conn, wire)
after_send registered would_block conn wire =
    (registered, if registered then some reading_writing else none, conn, wire)
after_send registered peer_closed conn wire = (false, none, conn, wire)
after_send registered buffer_full conn wire = (false, none, conn, wire)
after_send registered error conn wire = (false, none, conn, wire)

-- `handleSend`: whether the connection stays open, the registration made, the connection, and what
-- the socket has taken.
pub handle_send :
    Bool → List Answer → IpcConnection → List ℕ → Bool × Option Interest × IpcConnection × List ℕ
unfolding after_send
handle_send registered answers conn wire =
    let (t, conn') = send answers conn wire in after_send registered t.result conn' t.wire
