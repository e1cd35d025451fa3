-- ===== src/Probed/Transport.antt =====
-- probed/icmp/IcmpConnection.{h,cpp} and the receiving and sending half of IcmpEngineHandler: the
-- raw socket with a queue of datagrams on either side. The kernel is a list of answers, one for
-- each call of `recvfrom` or `sendto`; a list that has run out stands for EAGAIN. Addresses are
-- texts; `inet_pton` is a parameter. A connection is made for an open socket only, so that its
-- descriptor is not negative.
pub mod Queues
pub mod Sends
use nf_nms.Common.{
  ℕ, suc, List, [], ◌∷◌, ◌++◌, Option, none, some, Bool, true, false, if◌then◌else◌, not, ◌||◌, leb,
  ltb, ◌==◌, length, take, min,
}
use nf_nms.Util.Password.{is_empty}
use nf_nms.Ipc.Codec.{Endian}
use nf_nms.Probed.Icmp.{IcmpPacket, IcmpDecodeResult, empty, invalid_frame, decode}

pub data IcmpIoResult : Type 0 where
  ok would_block peer_closed buffer_full : IcmpIoResult
  -- With `outErrno`.
  error : ℕ → IcmpIoResult

pub record RxFrame : Type 0 where
  pub bytes : List ℕ
  pub src_ip : List ℕ

pub record TxFrame : Type 0 where
  pub bytes : List ℕ
  pub dst_ip : List ℕ

pub record IcmpConnection : Type 0 where
  pub fd : ℕ
  pub rx_queue_limit : ℕ
  pub tx_queue_limit : ℕ
  pub rx_queue : List RxFrame
  pub tx_queue : List TxFrame

abbrev pub queue_limit : ℕ
queue_limit = 4096

-- The constructor with its default limits.
unfoldable pub connect : ℕ → IcmpConnection
connect fd = record {
  fd = fd;
  rx_queue_limit = queue_limit;
  tx_queue_limit = queue_limit;
  rx_queue = [];
  tx_queue = [];
}

-- What `recvfrom` answers: a datagram that is not empty and its sender's address, one whose address
-- `inet_ntop` does not print, a result of 0, EINTR, EAGAIN or EWOULDBLOCK, or another errno.
pub data RxAnswer : Type 0 where
  arrived : (byte : ℕ) (bytes src_ip : List ℕ) → RxAnswer
  unprintable : ℕ → RxAnswer
  ended interrupted again : RxAnswer
  failed : ℕ → RxAnswer

-- A datagram that has arrived is queued.
pub queued : RxAnswer → IcmpConnection → IcmpConnection
queued (arrived byte bytes src_ip) c = record c {
  rx_queue = c.rx_queue ++ (record { bytes = byte ∷ bytes; src_ip = src_ip } ∷ []);
}
queued _ c = c

-- The answers that end the loop.
pub ending : RxAnswer → Option IcmpIoResult
ending (arrived byte bytes src_ip) = none
ending (unprintable e) = some (error e)
ending ended = some peer_closed
ending interrupted = none
ending again = some would_block
ending (failed e) = some (error e)

pub ended_or :
    Option IcmpIoResult
    → IcmpConnection
    → IcmpIoResult × IcmpConnection
    → IcmpIoResult × IcmpConnection
ended_or none c rest = rest
ended_or (some result) c rest = (result, c)

-- `recv`
pub receive_loop : List RxAnswer → IcmpConnection → IcmpIoResult × IcmpConnection
unfolding queued ending ended_or
receive_loop [] c =
    if leb c.rx_queue_limit (length c.rx_queue) then (buffer_full, c) else (would_block, c)
receive_loop (a ∷ answers) c =
    let rest = receive_loop answers (queued a c) in
    if leb c.rx_queue_limit (length c.rx_queue)
    then (buffer_full, c)
    else ended_or (ending a) c rest

-- What `sendto` answers: that it has taken so many bytes and one, a result of 0, EINTR, one of
-- EAGAIN, EWOULDBLOCK and ENOBUFS, one of the five errors that drop a datagram, or another errno.
pub data TxAnswer : Type 0 where
  taken : ℕ → TxAnswer
  nothing interrupted again undeliverable : TxAnswer
  failed : ℕ → TxAnswer

-- The result, what is left of the queue, and the datagrams that the kernel has taken whole.
pub record Sending : Type 0 where
  pub result : IcmpIoResult
  pub queue : List TxFrame
  pub wire : List TxFrame

-- What follows an answer: the loop goes on behind a datagram that was taken whole, or behind one
-- that was dropped, or it asks again, or it ends.
pub after_answer :
    TxAnswer → TxFrame → List TxFrame → List TxFrame → (whole partly retry : Sending) → Sending
after_answer (taken n) f queue wire whole partly retry =
    if suc n == length f.bytes then whole else partly
after_answer nothing f queue wire whole partly retry = partly
after_answer interrupted f queue wire whole partly retry = retry
after_answer again f queue wire whole partly retry = record {
  result = would_block;
  queue = f ∷ queue;
  wire = wire;
}
after_answer undeliverable f queue wire whole partly retry = partly
after_answer (failed e) f queue wire whole partly retry = record {
  result = error e;
  queue = f ∷ queue;
  wire = wire;
}

module _ (is_address : List ℕ → Bool) where
  -- The loop of `send`. A datagram without bytes or with a bad address costs no call.
  unfoldable pub send_loop : List TxAnswer → List TxFrame → List TxFrame → Sending
  unfolding after_answer
  send_loop answers [] wire = record { result = ok; queue = []; wire = wire }
  send_loop [] (f ∷ queue) wire =
      let skipped = send_loop [] queue wire in
      if is_empty f.bytes || not (is_address f.dst_ip)
      then skipped
      else record { result = would_block; queue = f ∷ queue; wire = wire }
  send_loop (a ∷ answers) (f ∷ queue) wire =
      let skipped = send_loop (a ∷ answers) queue wire in
      let whole = send_loop answers queue (wire ++ (f ∷ [])) in
      let partly = send_loop answers queue wire in
      let retry = send_loop answers (f ∷ queue) wire in
      if is_empty f.bytes || not (is_address f.dst_ip)
      then skipped
      else after_answer a f queue wire whole partly retry

-- `write`
unfoldable pub write : IcmpConnection → List ℕ → List ℕ → Bool × IcmpConnection
write c bytes dst_ip =
    if is_empty bytes
    then (true, c)
    else if is_empty dst_ip
    then (false, c)
    else if leb c.tx_queue_limit (length c.tx_queue)
    then (false, c)
    else (
      true,
      record c { tx_queue = c.tx_queue ++ (record { bytes = bytes; dst_ip = dst_ip } ∷ []) },
    )

-- The packet of a frame that decodes.
unfoldable pub packet_in : IcmpDecodeResult × Option IcmpPacket → Option IcmpPacket
packet_in (IcmpDecodeResult.ok, packet) = packet
packet_in (empty, packet) = none
packet_in (invalid_frame, packet) = none

-- `ingress`, on the packets that the router has been given so far.
pub ingress : Endian → RxFrame → List (List ℕ × IcmpPacket) → Bool × List (List ℕ × IcmpPacket)
ingress e frame delivered =
    if is_empty frame.bytes then (false, delivered) else elim (packet_in (decode e frame.bytes)) [
      | none ↦ (true, delivered)
      | some packet ↦ (true, delivered ++ ((frame.src_ip, packet) ∷ []))
    ]

-- The loop over `read`.
pub read_all :
    Endian
    → List RxFrame
    → List (List ℕ × IcmpPacket)
    → Bool × List RxFrame × List (List ℕ × IcmpPacket)
read_all e [] delivered = (true, [], delivered)
read_all e (frame ∷ queue) delivered =
    let (going, delivered') = ingress e frame delivered in
    let rest = read_all e queue delivered' in if going then rest else (false, queue, delivered')

is_fatal : IcmpIoResult → Bool
is_fatal peer_closed = true
is_fatal (error e) = true
is_fatal _ = false

pub handle_recv :
    Endian
    → List RxAnswer
    → IcmpConnection
    → List (List ℕ × IcmpPacket)
    → Bool × IcmpConnection × List (List ℕ × IcmpPacket)
unfolding receive_loop read_all is_fatal
handle_recv e answers c delivered =
    let (result, c') = receive_loop answers c in
    if is_fatal result
    then (false, c', delivered)
    else let (going, queue, delivered') = read_all e c'.rx_queue delivered in
      (going, record c' { rx_queue = queue }, delivered')
