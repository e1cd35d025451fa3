-- ===== src/Ipc/Connection.antt =====
-- shared/ipc/IpcConnection.{h,cpp}: a non-blocking socket with a ring of bytes on either side.
-- The kernel is a list of answers, one for each system call in order, and the bytes that wait in
-- the socket; where the list ends the socket has nothing more to say (EAGAIN).
pub mod Stream
use nf_nms.Common.{
  ℕ, suc, ◌≤◌, max, min, List, [], ◌∷◌, ◌++◌, Bool, true, false, if◌then◌else◌, ltb, ◌==◌, length,
  take, drop,
}
use nf_nms.Ring
use nf_nms.Ring.{ByteRingBuffer}
use nf_nms.Ipc.Codec.{max_frame_size}

pub data IoResult : Type 0 where
  ok would_block peer_closed buffer_full error : IoResult

pub record IpcConnection : Type 0 where
  pub fd : ℕ
  pub rx : ByteRingBuffer
  pub tx : ByteRingBuffer

-- The constructor: each ring holds at least one frame of the largest size.
unfoldable pub connect : ℕ → ℕ → ℕ → IpcConnection
connect fd rx_buf tx_buf = record {
  fd = fd;
  rx = Ring.init (max rx_buf max_frame_size);
  tx = Ring.init (max tx_buf max_frame_size);
}

-- What one call of `recv` or `send` answers: `moved k` moves at most `k + 1` bytes, `ended` is a
-- result of 0, `again` stands for EAGAIN and EWOULDBLOCK, and `failed` carries any other errno.
pub data Answer : Type 0 where
  moved : ℕ → Answer
  ended interrupted again : Answer
  failed : ℕ → Answer

-- The outcome of a transfer: the result, `outErrno`, the ring, and the socket's bytes.
pub record Transfer : Type 0 where
  pub result : IoResult
  pub errno : ℕ
  pub ring : ByteRingBuffer
  pub wire : List ℕ

-- `recv`, on its ring; `wire` holds the bytes that wait in the socket.
unfoldable pub recv_loop : List Answer → ByteRingBuffer → List ℕ → Transfer
recv_loop [] rx wire =
    if Ring.write_len rx == 0
    then record { result = buffer_full; errno = 0; ring = rx; wire = wire }
    else record { result = would_block; errno = 0; ring = rx; wire = wire }
recv_loop (a ∷ answers) rx wire =
    if Ring.write_len rx == 0
    then record { result = buffer_full; errno = 0; ring = rx; wire = wire }
    else elim a [
      | moved k ↦
          let n = min (Ring.write_len rx) (min (suc k) (length wire)) in
          let rest = recv_loop answers (Ring.write_chunk rx (take n wire)) (drop n wire) in
          if n == 0
          then record { result = would_block; errno = 0; ring = rx; wire = wire }
          else rest
      | ended ↦ record { result = peer_closed; errno = 0; ring = rx; wire = wire }
      | interrupted ↦ recv_loop answers rx wire
      | again ↦ record { result = would_block; errno = 0; ring = rx; wire = wire }
      | failed e ↦ record { result = error; errno = e; ring = rx; wire = wire }
    ]

unfoldable pub recv : List Answer → IpcConnection → List ℕ → Transfer × IpcConnection
recv answers conn wire = let t = recv_loop answers conn.rx wire in (t, record conn { rx = t.ring })

-- `send`, on its ring; `wire` holds the bytes that the socket has taken so far.
pub send_loop : List Answer → ByteRingBuffer → List ℕ → Transfer
send_loop [] tx wire =
    if Ring.readable tx == 0
    then record { result = ok; errno = 0; ring = tx; wire = wire }
    else record { result = would_block; errno = 0; ring = tx; wire = wire }
send_loop (a ∷ answers) tx wire =
    if Ring.readable tx == 0
    then record { result = ok; errno = 0; ring = tx; wire = wire }
    else elim a [
      | moved k ↦
          let n = min (Ring.read_len tx) (suc k) in
          let wire' = wire ++ Ring.slice tx.buffer tx.head n in
          let rest = send_loop answers (Ring.consume tx n) wire' in
          if ltb n (Ring.read_len tx)
          then record { result = would_block; errno = 0; ring = Ring.consume tx n; wire = wire' }
          else rest
      | ended ↦ record { result = peer_closed; errno = 0; ring = tx; wire = wire }
      | interrupted ↦ send_loop answers tx wire
      | again ↦ record { result = would_block; errno = 0; ring = tx; wire = wire }
      | failed e ↦ record { result = error; errno = e; ring = tx; wire = wire }
    ]

unfoldable pub send : List Answer → IpcConnection → List ℕ → Transfer × IpcConnection
send answers conn wire = let t = send_loop answers conn.tx wire in (t, record conn { tx = t.ring })

-- `write`: all of the bytes, or none.
pub write : IpcConnection → List ℕ → Bool × IpcConnection
write conn bytes =
    if length bytes == 0
    then (true, conn)
    else if ltb (Ring.writable conn.tx) (length bytes)
    then (false, conn)
    else (true, record conn { tx = (Ring.write conn.tx bytes).1 })
