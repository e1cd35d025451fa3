-- ===== src/Ipc/Handler/Keep.antt =====
-- What receiving and sending keep: the rings of the connection, and whatever `ingress` keeps.
use nf_nms.Common.{
  ℕ, zero, suc, List, none, some, Bool, true, false, if◌then◌else◌, if_cases, ◌≡◌, refl, ap,
  Option-cases, inl, inr,
}
use nf_nms.Ring
use nf_nms.Ring.{ByteRingBuffer}
use nf_nms.Ipc.Codec.{Endian}
use nf_nms.Ipc.Connection.{
  IpcConnection, Answer, IoResult, ok, would_block, peer_closed, buffer_full, error, recv, send,
}
use nf_nms.Ipc.Connection.Stream.{IsReady, recv_stream, send_stream}
use nf_nms.Ipc.Handler.{
  Look, wait, reject, frame, look, take_frame, drain_loop, drain_rx_frames, drained, after_recv,
  handle_recv, after_send, handle_send,
}
use nf_nms.Ipc.Handler.Drain.{drain_rx_frames-split}

module _ {S : Type 0} (e : Endian) (ingress : S → List ℕ → Bool × S) (I : S → Type 0)
    (kept : (s : S) (bytes : List ℕ) → I s → I (ingress s bytes).1) where
  -- One turn of the loop, by what stands at the front of the ring.
  turn_keep :
      (fuel : ℕ) (rx : ByteRingBuffer) (s : S)
      → ((rx' : ByteRingBuffer) (s' : S) → I s' → I (drain_loop e ingress fuel rx' s').2)
      → I s
      → (l : Look)
      → I
          (elim l as (λ _. Bool × ByteRingBuffer × S) [
            | wait ↦ (true, rx, s)
            | reject ↦ (false, rx, s)
            | frame n ↦ elim (take_frame rx n) as (λ _. Bool × ByteRingBuffer × S) [
              | none ↦ (false, rx, s)
              | some bytes ↦
                  let (accepted, s') = ingress s bytes in
                  let rest = drain_loop e ingress fuel (Ring.consume rx n) s' in
                  if accepted then rest else (false, rx, s')
            ]
          ]).2
  turn_keep fuel rx s later i wait = i
  turn_keep fuel rx s later i reject = i
  turn_keep fuel rx s later i (frame n) = elim (Option-cases (take_frame rx n)) [
    | inl q ↦ rw q i
    | inr (bytes, q) ↦ rw q (
        if_cases (λ (r : Bool × ByteRingBuffer × S). I r.2) (ingress s bytes).0
          (λ _. later (Ring.consume rx n) (ingress s bytes).1 (kept s bytes i))
          (λ _. kept s bytes i))
  ]

  drain_loop_keep :
      (fuel : ℕ) (rx : ByteRingBuffer) (s : S) → I s → I (drain_loop e ingress fuel rx s).2
  unfolding drain_loop
  drain_loop_keep zero rx s i = i
  drain_loop_keep (suc fuel) rx s i =
      turn_keep fuel rx s (λ rx' s'. drain_loop_keep fuel rx' s') i (look e rx)

  drained_keep :
      {conn : IpcConnection} (wire : List ℕ) (s : S)
      → IsReady conn
      → I s
      → let r = drained e ingress conn wire s in IsReady r.1 × I r.3
  unfolding drained drain_rx_frames
  drained_keep {conn} wire s ready i = (
    record {
      rx_valid = (drain_rx_frames-split e ingress s ready.rx_valid).valid;
      tx_valid = ready.tx_valid;
    },
    drain_loop_keep (suc (Ring.readable conn.rx)) conn.rx s i,
  )

  after_recv_keep :
      (rc : IoResult) {conn : IpcConnection} (wire : List ℕ) (s : S)
      → IsReady conn
      → I s
      → let r = after_recv e ingress rc conn wire s in IsReady r.1 × I r.3
  unfolding after_recv
  after_recv_keep ok wire s ready i = drained_keep wire s ready i
  after_recv_keep would_block wire s ready i = drained_keep wire s ready i
  after_recv_keep peer_closed wire s ready i = (ready, i)
  after_recv_keep buffer_full wire s ready i = (ready, i)
  after_recv_keep error wire s ready i = (ready, i)

  -- Receiving, whatever the kernel answers.
  pub handle_recv_keep :
      (answers : List Answer) {conn : IpcConnection} (wire : List ℕ) (s : S)
      → IsReady conn
      → I s
      → let r = handle_recv e ingress answers conn wire s in IsReady r.1 × I r.3
  unfolding handle_recv
  handle_recv_keep answers {conn} wire s ready i =
      let t = (recv answers conn wire).0 in
      after_recv_keep t.result t.wire s (recv_stream answers wire ready).0 i

  after_recv-fd :
      (rc : IoResult) (conn : IpcConnection) (wire : List ℕ) (s : S)
      → (after_recv e ingress rc conn wire s).1.fd ≡ conn.fd
  unfolding after_recv drained
  after_recv-fd ok conn wire s = refl
  after_recv-fd would_block conn wire s = refl
  after_recv-fd peer_closed conn wire s = refl
  after_recv-fd buffer_full conn wire s = refl
  after_recv-fd error conn wire s = refl

  pub handle_recv-fd :
      (answers : List Answer) (conn : IpcConnection) (wire : List ℕ) (s : S)
      → (handle_recv e ingress answers conn wire s).1.fd ≡ conn.fd
  unfolding handle_recv recv
  handle_recv-fd answers conn wire s =
      let (t, conn') = recv answers conn wire in after_recv-fd t.result conn' t.wire s

  -- Where `recv` has emptied the socket, what arrived is cut into frames.
  pub handle_recv-drain :
      (answers : List Answer) (conn : IpcConnection) (wire : List ℕ) (s : S)
      → (recv answers conn wire).0.result ≡ would_block
      → let (t, conn') = recv answers conn wire in
        let (open_yet, rx, s') = drain_rx_frames e ingress conn'.rx s in
        handle_recv e ingress answers conn wire s ≡ (open_yet, record conn' { rx = rx }, t.wire, s')
  unfolding handle_recv after_recv drained
  handle_recv-drain answers conn wire s h =
      let (t, conn') = recv answers conn wire in ap (λ k. after_recv e ingress k conn' t.wire s) h

after_send-fd :
    (registered : Bool) (rc : IoResult) (conn : IpcConnection) (wire : List ℕ)
    → (after_send registered rc conn wire).2.fd ≡ conn.fd
unfolding after_send
after_send-fd registered ok conn wire = refl
after_send-fd registered would_block conn wire = refl
after_send-fd registered peer_closed conn wire = refl
after_send-fd registered buffer_full conn wire = refl
after_send-fd registered error conn wire = refl

pub handle_send-fd :
    (registered : Bool) (answers : List Answer) (conn : IpcConnection) (wire : List ℕ)
    → (handle_send registered answers conn wire).2.fd ≡ conn.fd
unfolding handle_send send
handle_send-fd registered answers conn wire =
    let (t, conn') = send answers conn wire in after_send-fd registered t.result conn' t.wire

after_send-IsReady :
    (registered : Bool) (rc : IoResult) {conn : IpcConnection} (wire : List ℕ)
    → IsReady conn
    → IsReady (after_send registered rc conn wire).2
unfolding after_send
after_send-IsReady registered ok wire ready = ready
after_send-IsReady registered would_block wire ready = ready
after_send-IsReady registered peer_closed wire ready = ready
after_send-IsReady registered buffer_full wire ready = ready
after_send-IsReady registered error wire ready = ready

pub handle_send-IsReady :
    (registered : Bool) (answers : List Answer) {conn : IpcConnection} (wire : List ℕ)
    → IsReady conn
    → IsReady (handle_send registered answers conn wire).2
unfolding handle_send
handle_send-IsReady registered answers {conn} wire ready =
    let t = (send answers conn wire).0 in
    after_send-IsReady registered t.result t.wire (send_stream answers wire ready).0
