-- ===== src/Probed/Transport/Queues.antt =====
-- What becomes of the receive queue.
use nf_nms.Common.{
  ℕ, ◌+◌, ◌≤◌, List, [], ◌∷◌, ◌++◌, ◌≡◌, inl, inr, refl, ap, sym, ◌∙◌, Option, none, some, true,
  false, if_cases, Bool-cases, Option-cases, leb, length, length-append, append-nil, append_assoc,
  arith,
}
use nf_nms.Util.Password.{is_empty}
use nf_nms.Ipc.Codec.{Endian}
use nf_nms.Probed.Icmp.{IcmpPacket, decode}
use nf_nms.Probed.Transport.{
  IcmpIoResult, RxFrame, IcmpConnection, RxAnswer, arrived, interrupted, queued, ending, ended_or,
  receive_loop, packet_in, ingress, read_all, is_fatal, handle_recv,
}

-- Only the receive queue changes when datagrams are received.
abbrev Same : IcmpConnection → IcmpIoResult × IcmpConnection → Type 0
Same c r = r.1 ≡ record c { rx_queue = r.1.rx_queue }

queued-Same :
    (a : RxAnswer) (c : IcmpConnection) (r : IcmpIoResult × IcmpConnection)
    → Same (queued a c) r
    → Same c r
unfolding queued
queued-Same (arrived byte bytes src_ip) c r h = h
queued-Same interrupted c r h = h
queued-Same _ c r h = h

ended_or-Same :
    (o : Option IcmpIoResult) (c : IcmpConnection) (r : IcmpIoResult × IcmpConnection)
    → Same c r
    → Same c (ended_or o c r)
unfolding ended_or
ended_or-Same none c r h = h
ended_or-Same (some result) c r h = refl

receive_loop-Same : (answers : List RxAnswer) (c : IcmpConnection) → Same c (receive_loop answers c)
unfolding receive_loop
receive_loop-Same [] c =
    if_cases (Same c) (leb c.rx_queue_limit (length c.rx_queue)) (λ _. refl) (λ _. refl)
receive_loop-Same (a ∷ answers) c =
    if_cases (Same c) (leb c.rx_queue_limit (length c.rx_queue)) (λ _. refl)
      (λ _.
        let rest = receive_loop answers (queued a c) in
        ended_or-Same (ending a) c rest
          (queued-Same a c rest (receive_loop-Same answers (queued a c))))

-- The loop over the frames goes on to the end, or stops at a frame without bytes.
read_all-done :
    (e : Endian) (queue : List RxFrame) (delivered : List (List ℕ × IcmpPacket))
    → (read_all e queue delivered).0 ≡ true
    → (read_all e queue delivered).1 ≡ []
unfolding read_all
read_all-done e [] delivered h = refl
read_all-done e (frame ∷ queue) delivered h = elim (Bool-cases (ingress e frame delivered).0) [
  | inl t ↦ rw t (read_all-done e queue (ingress e frame delivered).1 (ground (arith, h, t)))
  | inr f ↦ absurd (ground (arith, h, f))
]

-- A connection that goes on has its datagrams handed over and nothing else changed.
pub handle_recv-done :
    (e : Endian) (answers : List RxAnswer) (c : IcmpConnection)
    (delivered : List (List ℕ × IcmpPacket))
    → (handle_recv e answers c delivered).0 ≡ true
    → (handle_recv e answers c delivered).1 ≡ record c { rx_queue = [] }
unfolding handle_recv
handle_recv-done e answers c delivered h =
    let (r, c') = receive_loop answers c in
    elim (Bool-cases (is_fatal r)) [
      | inl t ↦ absurd (ground (arith, h, t))
      | inr f ↦
          let going : (read_all e c'.rx_queue delivered).0 ≡ true = rw f at h in
          rw f (
            ap (λ q. record c' { rx_queue = q }) (read_all-done e c'.rx_queue delivered going)
            ∙ ap (λ (x : IcmpConnection). record x { rx_queue = [] }) (receive_loop-Same answers c))
    ]

-- Datagrams as they come in: not empty, with the text of the sender's address.
pub record Datagram : Type 0 where
  pub byte : ℕ
  pub bytes : List ℕ
  pub src_ip : List ℕ

abbrev pub arrivals : List Datagram → List RxAnswer
arrivals [] = []
arrivals (d ∷ ds) = arrived d.byte d.bytes d.src_ip ∷ arrivals ds

abbrev frames : List Datagram → List RxFrame
frames [] = []
frames (d ∷ ds) = record { bytes = d.byte ∷ d.bytes; src_ip = d.src_ip } ∷ frames ds

-- The packets that they carry.
abbrev pub packet_from : List ℕ → Option IcmpPacket → List (List ℕ × IcmpPacket)
packet_from src_ip none = []
packet_from src_ip (some packet) = (src_ip, packet) ∷ []

pub packets : Endian → List Datagram → List (List ℕ × IcmpPacket)
packets e [] = []
packets e (d ∷ ds) = packet_from d.src_ip (packet_in (decode e (d.byte ∷ d.bytes))) ++ packets e ds

ingress_lem :
    (e : Endian) (frame : RxFrame) (delivered : List (List ℕ × IcmpPacket))
    → is_empty frame.bytes ≡ false
    → ingress e frame delivered
      ≡ (true, delivered ++ packet_from frame.src_ip (packet_in (decode e frame.bytes)))
unfolding ingress
ingress_lem e frame delivered h = rw h (elim (Option-cases (packet_in (decode e frame.bytes))) [
  | inl q ↦ rw q (ap (λ l. (true, l)) (sym (append-nil delivered)))
  | inr (packet, q) ↦ rw q
])

read_all_lem :
    (e : Endian) (ds : List Datagram) (delivered : List (List ℕ × IcmpPacket))
    → read_all e (frames ds) delivered ≡ (true, [], delivered ++ packets e ds)
unfolding read_all packets is_empty
read_all_lem e [] delivered = ap (λ l. (true, [], l)) (sym (append-nil delivered))
read_all_lem e (d ∷ ds) delivered =
    let frame : RxFrame = record { bytes = d.byte ∷ d.bytes; src_ip = d.src_ip } in
    let here = packet_from d.src_ip (packet_in (decode e (d.byte ∷ d.bytes))) in
    rw (ingress_lem e frame delivered refl) (
      read_all_lem e ds (delivered ++ here)
      ∙ ap (λ l. (true, [], l)) (append_assoc delivered here (packets e ds)))

receive_loop_lem :
    (ds : List Datagram) (c : IcmpConnection)
    → length c.rx_queue + length ds ≤ c.rx_queue_limit
    → (is_fatal (receive_loop (arrivals ds) c).0 ≡ false)
      × ((receive_loop (arrivals ds) c).1.rx_queue ≡ c.rx_queue ++ frames ds)
unfolding receive_loop queued ending ended_or is_fatal
receive_loop_lem [] c h =
    if_cases
      (λ (r : IcmpIoResult × IcmpConnection).
        (is_fatal r.0 ≡ false) × (r.1.rx_queue ≡ c.rx_queue ++ []))
      (leb c.rx_queue_limit (length c.rx_queue)) (λ _. (refl, sym (append-nil c.rx_queue)))
      (λ _. (refl, sym (append-nil c.rx_queue)))
receive_loop_lem (d ∷ ds) c h =
    let frame : RxFrame = record { bytes = d.byte ∷ d.bytes; src_ip = d.src_ip } in
    let room : leb c.rx_queue_limit (length c.rx_queue) ≡ false = ground (arith, h) in
    let (fine, queue) =
      receive_loop_lem ds (record c { rx_queue = c.rx_queue ++ (frame ∷ []) })
        (omega (arith, h, length-append c.rx_queue (frame ∷ []))) in
    rw room (fine, queue ∙ append_assoc c.rx_queue (frame ∷ []) (frames ds))

-- When a connection whose receive queue is empty is read, the datagrams that have come, up to the
-- limit of the queue, are handed over as the packets that they carry, in the order in which they
-- came; those that do not decode are left out, and the connection is as it was.
pub handle_recv_lem :
    (e : Endian) (ds : List Datagram) (c : IcmpConnection) (delivered : List (List ℕ × IcmpPacket))
    → c.rx_queue ≡ []
    → length ds ≤ c.rx_queue_limit
    → handle_recv e (arrivals ds) c delivered ≡ (true, c, delivered ++ packets e ds)
unfolding handle_recv
handle_recv_lem e ds c delivered h fits =
    let (fine, queue) = receive_loop_lem ds c (omega (arith, ap length h, fits)) in
    let c' = (receive_loop (arrivals ds) c).1 in
    let read : read_all e c'.rx_queue delivered ≡ (true, [], delivered ++ packets e ds) =
      ap (λ q. read_all e q delivered) (queue ∙ ap (λ q. q ++ frames ds) h)
      ∙ read_all_lem e ds delivered in
    rw (fine, read)
      (ap (λ (x : IcmpConnection). (true, x, delivered ++ packets e ds))
        (ap (λ (x : IcmpConnection). record x { rx_queue = [] }) (receive_loop-Same (arrivals ds) c)
          ∙ ap (λ q. record c { rx_queue = q }) (sym h)))
