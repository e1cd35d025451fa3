-- ===== src/Ring.antt =====
-- shared/algorithm/ByteRingBuffer.{h,cpp}: the byte ring under every IPC connection. The buffer's
-- length is the capacity; `memcpy` to and from the buffer is `store` and `slice`.
pub mod Inv
pub mod Contents
pub mod Write
pub mod Read
use nf_nms.Common.{
  ℕ, zero, suc, ◌+◌, ◌-◌, ◌%◌, ◌≤◌, ◌<◌, min, List, [], ◌∷◌, ◌++◌, Option, none, some, Bool, ◌&&◌,
  if◌then◌else◌, ltb, ◌==◌, length, get_or, set, take, drop, replicate, add_size, sub_size,
}

pub record ByteRingBuffer : Type 0 where
  pub buffer : List ℕ
  pub head : ℕ
  pub tail : ℕ
  pub size : ℕ

-- The constructor: `capacity` zero bytes.
pub init : ℕ → ByteRingBuffer
init capacity = record { buffer = replicate capacity 0; head = 0; tail = 0; size = 0 }

-- `m_buffer.size()`
abbrev pub capacity : ByteRingBuffer → ℕ
capacity r = length r.buffer

abbrev pub readable : ByteRingBuffer → ℕ
readable r = r.size

abbrev pub writable : ByteRingBuffer → ℕ
writable r = sub_size (capacity r) r.size

-- The offset that `writePtr` points at, `none` for its null pointer.
unfoldable pub write_ptr : ByteRingBuffer → Option ℕ
write_ptr r = if writable r == 0 then none else some r.tail

-- The bytes that can be written at `write_ptr` without going round the end.
unfoldable pub write_len : ByteRingBuffer → ℕ
write_len r = if writable r == 0 then 0 else min (sub_size (capacity r) r.tail) (writable r)

unfoldable pub produce : ByteRingBuffer → ℕ → ByteRingBuffer
produce r n = record r { tail = add_size r.tail n % capacity r; size = add_size r.size n }

-- `memcpy(&buf[at], bytes)`
unfoldable pub store : List ℕ → ℕ → List ℕ → List ℕ
store buf at [] = buf
store buf at (x ∷ xs) = store (set buf at x) (suc at) xs

-- `n` bytes from `buf[at]` on
abbrev pub slice : List ℕ → ℕ → ℕ → List ℕ
slice buf at n = take n (drop at buf)

-- A copy of `bytes` to `write_ptr`, followed by `produce` of their number.
unfoldable pub write_chunk : ByteRingBuffer → List ℕ → ByteRingBuffer
write_chunk r bytes = produce (record r { buffer = store r.buffer r.tail bytes }) (length bytes)

-- The loop of `write`, on fuel; `bytes` is what is left of the input, `written` what is done.
write_loop : ℕ → ByteRingBuffer → List ℕ → ℕ → ℕ × ByteRingBuffer
write_loop zero r bytes written = (written, r)
write_loop (suc fuel) r bytes written =
    let n = min (write_len r) (length bytes) in
    let rest = write_loop fuel (write_chunk r (take n bytes)) (drop n bytes) (written + n) in
    if ltb 0 (length bytes) && ltb 0 (writable r) then rest else (written, r)

pub write : ByteRingBuffer → List ℕ → ℕ × ByteRingBuffer
write r bytes = write_loop (suc (length bytes)) r bytes 0

pub read_ptr : ByteRingBuffer → Option ℕ
read_ptr r = if readable r == 0 then none else some r.head

pub read_len : ByteRingBuffer → ℕ
read_len r = if readable r == 0 then 0 else min (sub_size (capacity r) r.head) (readable r)

pub consume : ByteRingBuffer → ℕ → ByteRingBuffer
consume r n = record r { head = add_size r.head n % capacity r; size = sub_size r.size n }

-- The loop of `read`, on fuel; `len` is what is still asked for, `out` what is already copied.
read_loop : ℕ → ByteRingBuffer → ℕ → List ℕ → List ℕ × ByteRingBuffer
read_loop zero r len out = (out, r)
read_loop (suc fuel) r len out =
    let n = min (read_len r) len in
    let rest = read_loop fuel (consume r n) (len - n) (out ++ slice r.buffer r.head n) in
    if ltb 0 len && ltb 0 (readable r) then rest else (out, r)

-- The bytes read; their number is the list's length.
pub read : ByteRingBuffer → ℕ → List ℕ × ByteRingBuffer
read r len = read_loop (suc len) r len []

pub peek : ByteRingBuffer → ℕ → List ℕ
peek r len =
    let to_read = min len r.size in
    let first = min to_read (sub_size (capacity r) r.head) in
    slice r.buffer r.head first
    ++ (if ltb first to_read then slice r.buffer 0 (to_read - first) else [])

pub clear : ByteRingBuffer → ByteRingBuffer
clear r = record r { head = 0; tail = 0; size = 0 }
