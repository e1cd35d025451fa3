-- ===== src/Ipc/Connection/Stream.antt =====
-- `IpcConnection` neither loses, repeats nor reorders a byte of the stream.
use mathlib.Core.Path.{ap₂}
use nf_nms.Common.{
  ℕ, suc, ◌+◌, ◌-◌, ◌^◌, ◌≤◌, ◌<◌, max, min, List, [], ◌∷◌, ◌++◌, ◌≡◌, refl, ap, sym, ◌∙◌, Bool,
  true, false, arith, ltb, ◌==◌, length, take, drop, length-take, take-append-drop, append_assoc,
  take-ge, if_cases, ltb→lt, not_ltb→le, ==_iff, length-zero, append-nil, inl, inr, ◌⊎◌,
}
use nf_nms.Ring
use nf_nms.Ring.{ByteRingBuffer}
use nf_nms.Ring.Inv.{
  IsValid, init-IsValid, capacity-init, write_chunk-IsValid, consume-IsValid, write_len_lem,
  read_len_lem, tail_in, writable_lem,
}
use nf_nms.Ring.Contents.{
  contents, contents-init, contents-write_chunk, contents-consume, slice-head,
}
use nf_nms.Ring.Write.{Wrote, write_lem}
use nf_nms.Ipc.Codec.{max_frame_size}
use nf_nms.Ipc.Connection.{
  IpcConnection, IoResult, connect, Answer, moved, interrupted, Transfer, recv_loop, recv,
  send_loop, send, write,
}

pub record IsReady (conn : IpcConnection) : Type 0 where
  pub rx_valid : IsValid conn.rx
  pub tx_valid : IsValid conn.tx

-- A transfer in: the stream is what the ring holds, then what waits in the socket.
pub record Kept (rx : ByteRingBuffer) (wire : List ℕ) (t : Transfer) : Type 0 where
  pub valid : IsValid t.ring
  pub stream : contents t.ring ++ t.wire ≡ contents rx ++ wire

module _ {rx : ByteRingBuffer} (v : IsValid rx) (wire : List ℕ) (n : ℕ)
    (h : n ≤ Ring.write_len rx) where
  room :
      (rx.size + length (take n wire) ≤ Ring.capacity rx)
      × (rx.tail + length (take n wire) ≤ Ring.capacity rx)
  room = omega (arith, length-take n wire, write_len_lem v, tail_in v)

  moved_in :
      (t : Transfer)
      → (IsValid (Ring.write_chunk rx (take n wire))
          → Kept (Ring.write_chunk rx (take n wire)) (drop n wire) t)
      → Kept rx wire t
  moved_in t k =
      let k' = k (write_chunk-IsValid (take n wire) v room.0) in
      record {
        valid = k'.valid;
        stream =
            k'.stream
            ∙ ap (λ c. c ++ drop n wire) (contents-write_chunk (take n wire) v room.0 room.1)
            ∙ append_assoc (contents rx) (take n wire) (drop n wire)
            ∙ ap (λ c. contents rx ++ c) (take-append-drop n wire);
      }

unmoved :
    {rx : ByteRingBuffer} {r : IoResult} {e : ℕ}
    → IsValid rx
    → (wire : List ℕ) → Kept rx wire (record { result = r; errno = e; ring = rx; wire = wire })
unmoved v wire = record { valid = v; stream = refl }

recv_loop-Kept :
    (answers : List Answer) {rx : ByteRingBuffer} (wire : List ℕ)
    → IsValid rx
    → Kept rx wire (recv_loop answers rx wire)
unfolding recv_loop
recv_loop-Kept [] {rx} wire v =
    if_cases (Kept rx wire) (Ring.write_len rx == 0) (λ _. unmoved v wire) (λ _. unmoved v wire)
recv_loop-Kept (moved k ∷ answers) {rx} wire v =
    if_cases (Kept rx wire) (Ring.write_len rx == 0) (λ _. unmoved v wire)
      (λ _.
        if_cases (Kept rx wire) (min (Ring.write_len rx) (min (suc k) (length wire)) == 0)
          (λ _. unmoved v wire)
          (λ _. moved_in v wire _ (omega arith) _ (λ v'. recv_loop-Kept answers _ v')))
recv_loop-Kept (interrupted ∷ answers) {rx} wire v =
    if_cases (Kept rx wire) (Ring.write_len rx == 0) (λ _. unmoved v wire)
      (λ _. recv_loop-Kept answers wire v)
recv_loop-Kept (_ ∷ answers) {rx} wire v =
    if_cases (Kept rx wire) (Ring.write_len rx == 0) (λ _. unmoved v wire) (λ _. unmoved v wire)

-- On a ready connection, whatever the calls of `recv` answer, the bytes in the ring followed by
-- those that wait in the socket are the same stream before and after; the connection stays ready
-- and the transmit ring is not touched.
pub recv_stream :
    (answers : List Answer) {conn : IpcConnection} (wire : List ℕ)
    → IsReady conn
    → let (t, conn') = recv answers conn wire in
      IsReady conn'
      × (contents conn'.rx ++ t.wire ≡ contents conn.rx ++ wire)
      × (conn'.tx ≡ conn.tx)
unfolding recv
recv_stream answers {conn} wire ready =
    let k = recv_loop-Kept answers {rx = conn.rx} wire ready.rx_valid in
    (record { rx_valid = k.valid; tx_valid = ready.tx_valid }, k.stream, refl)

-- A transfer out: the stream is what the socket has taken, then what the ring holds.
pub record Handed (tx : ByteRingBuffer) (wire : List ℕ) (t : Transfer) : Type 0 where
  pub valid : IsValid t.ring
  pub stream : t.wire ++ contents t.ring ≡ wire ++ contents tx

module _ {tx : ByteRingBuffer} (v : IsValid tx) (wire : List ℕ) (n : ℕ)
    (h : n ≤ Ring.read_len tx) where
  fits : (n ≤ tx.size) × (tx.head + n ≤ Ring.capacity tx)
  fits = omega (arith, read_len_lem v)

  after : IsValid (Ring.consume tx n)
  after = consume-IsValid n v fits.0

  moved_out :
      (t : Transfer)
      → Handed (Ring.consume tx n) (wire ++ Ring.slice tx.buffer tx.head n) t
      → Handed tx wire t
  moved_out t k = record {
    valid = k.valid;
    stream =
        k.stream
        ∙ append_assoc wire (Ring.slice tx.buffer tx.head n) (contents (Ring.consume tx n))
        ∙ ap (λ c. wire ++ c)
            (ap₂ ◌++◌ (slice-head n v fits.0 fits.1) (contents-consume n v fits.0)
              ∙ take-append-drop n (contents tx));
  }

untaken :
    {tx : ByteRingBuffer} {r : IoResult} {e : ℕ}
    → IsValid tx
    → (wire : List ℕ) → Handed tx wire (record { result = r; errno = e; ring = tx; wire = wire })
untaken v wire = record { valid = v; stream = refl }

send_loop-Handed :
    (answers : List Answer) {tx : ByteRingBuffer} (wire : List ℕ)
    → IsValid tx
    → Handed tx wire (send_loop answers tx wire)
unfolding send_loop
send_loop-Handed [] {tx} wire v =
    if_cases (Handed tx wire) (Ring.readable tx == 0) (λ _. untaken v wire) (λ _. untaken v wire)
send_loop-Handed (moved k ∷ answers) {tx} wire v =
    if_cases (Handed tx wire) (Ring.readable tx == 0) (λ _. untaken v wire)
      (λ _.
        if_cases (Handed tx wire) (ltb (min (Ring.read_len tx) (suc k)) (Ring.read_len tx))
          (λ _. moved_out v wire n most _ (untaken (after v wire n most) _))
          (λ _. moved_out v wire n most _ (send_loop-Handed answers _ (after v wire n most))))
  where
    n : ℕ
    n = min (Ring.read_len tx) (suc k)

    most : n ≤ Ring.read_len tx
    most = omega arith
send_loop-Handed (interrupted ∷ answers) {tx} wire v =
    if_cases (Handed tx wire) (Ring.readable tx == 0) (λ _. untaken v wire)
      (λ _. send_loop-Handed answers wire v)
send_loop-Handed (_ ∷ answers) {tx} wire v =
    if_cases (Handed tx wire) (Ring.readable tx == 0) (λ _. untaken v wire) (λ _. untaken v wire)

-- On a ready connection, whatever the calls of `send` answer, the bytes that the socket has taken
-- followed by those in the ring are the same stream before and after; the connection stays ready
-- and the receive ring is not touched.
pub send_stream :
    (answers : List Answer) {conn : IpcConnection} (wire : List ℕ)
    → IsReady conn
    → let (t, conn') = send answers conn wire in
      IsReady conn'
      × (t.wire ++ contents conn'.tx ≡ wire ++ contents conn.tx)
      × (conn'.rx ≡ conn.rx)
unfolding send
send_stream answers {conn} wire ready =
    let k = send_loop-Handed answers {tx = conn.tx} wire ready.tx_valid in
    (record { rx_valid = ready.rx_valid; tx_valid = k.valid }, k.stream, refl)

pub write-fd : (conn : IpcConnection) (bytes : List ℕ) → (write conn bytes).1.fd ≡ conn.fd
unfolding write
write-fd conn bytes = ground arith

pub recv-fd :
    (answers : List Answer) (conn : IpcConnection) (wire : List ℕ)
    → (recv answers conn wire).1.fd ≡ conn.fd
unfolding recv
recv-fd answers conn wire = refl

pub send-fd :
    (answers : List Answer) (conn : IpcConnection) (wire : List ℕ)
    → (send answers conn wire).1.fd ≡ conn.fd
unfolding send
send-fd answers conn wire = refl

-- On a ready connection, `write` queues all of the bytes behind those already queued, or refuses
-- and changes nothing, which it does exactly when they do not fit.
pub write_all_or_none :
    {conn : IpcConnection} (bytes : List ℕ)
    → IsReady conn
    → let (done, conn') = write conn bytes in
      ((done ≡ true)
        × (length bytes ≤ Ring.capacity conn.tx - conn.tx.size)
        × (contents conn'.tx ≡ contents conn.tx ++ bytes)
        × IsReady conn'
        × (conn'.rx ≡ conn.rx))
      ⊎ ((done ≡ false) × (Ring.capacity conn.tx - conn.tx.size < length bytes) × (conn' ≡ conn))
unfolding write
write_all_or_none {conn} bytes ready =
    if_cases Outcome (length bytes == 0)
      (λ e. inl (
        refl,
        omega (arith, (==_iff _ _).0 e),
        sym (append-nil _)
            ∙ ap (λ q. contents conn.tx ++ q) (sym (length-zero bytes ((==_iff _ _).0 e))),
        ready,
        refl,
      ))
      (λ _.
        if_cases Outcome (ltb (Ring.writable conn.tx) (length bytes))
          (λ e. inr (refl, omega (arith, ltb→lt _ _ e, writable_lem ready.tx_valid), refl))
          (λ e. inl (
            refl,
            room e,
            w.queue ∙ ap (λ q. contents conn.tx ++ q) (take-ge _ bytes (room e)),
            record { rx_valid = ready.rx_valid; tx_valid = w.valid },
            refl,
          )))
  where
    Outcome : Bool × IpcConnection → Type 0
    Outcome (done, conn') =
        ((done ≡ true)
          × (length bytes ≤ Ring.capacity conn.tx - conn.tx.size)
          × (contents conn'.tx ≡ contents conn.tx ++ bytes)
          × IsReady conn'
          × (conn'.rx ≡ conn.rx))
        ⊎ ((done ≡ false) × (Ring.capacity conn.tx - conn.tx.size < length bytes) × (conn' ≡ conn))

    w : Wrote conn.tx bytes 0 (Ring.write conn.tx bytes)
    w = write_lem bytes ready.tx_valid

    room :
        ltb (Ring.writable conn.tx) (length bytes) ≡ false
        → length bytes ≤ Ring.capacity conn.tx - conn.tx.size
    room e = omega (arith, not_ltb→le _ _ e, writable_lem ready.tx_valid)

-- A new connection, for buffer sizes below 2 ^ 62, is ready and empty, and each of its rings holds
-- a frame of the largest size.
pub connect-IsReady :
    (fd rx_buf tx_buf : ℕ)
    → rx_buf < 2 ^ 62
    → tx_buf < 2 ^ 62
    → let conn = connect fd rx_buf tx_buf in
      IsReady conn
      × (contents conn.rx ≡ [])
      × (contents conn.tx ≡ [])
      × (max_frame_size ≤ Ring.capacity conn.rx)
      × (max_frame_size ≤ Ring.capacity conn.tx)
unfolding connect
connect-IsReady fd rx_buf tx_buf h k = (
  record {
    rx_valid = init-IsValid (max rx_buf max_frame_size) (omega arith) (omega arith);
    tx_valid = init-IsValid (max tx_buf max_frame_size) (omega arith) (omega arith);
  },
  contents-init (max rx_buf max_frame_size),
  contents-init (max tx_buf max_frame_size),
  omega (arith, capacity-init (max rx_buf max_frame_size)),
  omega (arith, capacity-init (max tx_buf max_frame_size)),
)
