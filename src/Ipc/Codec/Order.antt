-- ===== src/Ipc/Codec/Order.antt =====
-- Byte order: what crosses the wire does not depend on the host.
use nf_nms.Common.{ℕ, ◌/◌, ◌%◌, ◌^◌, ◌<◌, ◌≡◌, List, ◌++◌, refl, ◌∙◌, arith}
use native.Mathlib.Nat.{mod-eq_of_lt}
use nf_nms.Ipc.Message.{WireHeader}
use nf_nms.Ipc.Codec.{
  Endian, little, big, net16, net32, bytes16, bytes32, word16, word32, host_to_net, net_to_host,
  header_bytes, header_of_bytes,
}

-- A word in network order is stored big end first on either host.
pub bytes16-net16 : (e : Endian) (v : ℕ) → v < 2 ^ 16 → bytes16 e (net16 e v) ≡ bytes16 big v
unfolding bytes16 net16
bytes16-net16 little v h = ground arith
bytes16-net16 big v h = refl

pub bytes32-net32 : (e : Endian) (v : ℕ) → v < 2 ^ 32 → bytes32 e (net32 e v) ≡ bytes32 big v
unfolding bytes32 net32
bytes32-net32 little v h = ground arith
bytes32-net32 big v h = refl

pub net16-word16 :
    (e : Endian) (a b : ℕ) → a < 256 → b < 256 → net16 e (word16 e a b) ≡ word16 big a b
unfolding word16 net16
net16-word16 little a b h k = omega arith
net16-word16 big a b h k = refl

pub net32-word32 :
    (e : Endian) (a b c d : ℕ)
    → a < 256
    → b < 256
    → c < 256
    → d < 256
    → net32 e (word32 e a b c d) ≡ word32 big a b c d
unfolding word32 net32
net32-word32 little a b c d h i j k = omega arith
net32-word32 big a b c d h i j k = refl

-- The bytes of a word in network order are read back as that word.
pub net16_read :
    (e : Endian) (v : ℕ) → v < 2 ^ 16 → net16 e (word16 e (v / 256 % 256) (v % 256)) ≡ v
unfolding word16
net16_read e v h =
    net16-word16 e (v / 256 % 256) (v % 256) (omega arith) (omega arith) ∙ (omega arith)

pub net32_read :
    (e : Endian) (v : ℕ)
    → v < 2 ^ 32
    → net32 e (word32 e (v / 2 ^ 24 % 256) (v / 2 ^ 16 % 256) (v / 256 % 256) (v % 256)) ≡ v
unfolding word32
net32_read e v h =
    net32-word32 e (v / 2 ^ 24 % 256) (v / 2 ^ 16 % 256) (v / 256 % 256) (v % 256) (omega arith)
      (omega arith) (omega arith) (omega arith)
    ∙ (omega arith)

-- Every field is in its range.
pub record IsWire (h : WireHeader) : Type 0 where
  pub version_byte : h.version < 256
  pub src_byte : h.src < 256
  pub dst_byte : h.dst < 256
  pub flags_byte : h.flags < 256
  pub cmd_word : h.cmd < 2 ^ 16
  pub reserved_word : h.reserved < 2 ^ 16
  pub seq_no_word : h.seq_no < 2 ^ 32
  pub payload_len_word : h.payload_len < 2 ^ 32

-- The header that a host sends is in network order, whichever its own order is.
pub header_bytes-host_to_net :
    (e : Endian) {h : WireHeader} → IsWire h → header_bytes e (host_to_net e h) ≡ header_bytes big h
unfolding header_bytes host_to_net
header_bytes-host_to_net e {h} w = rw (
  bytes16-net16 e h.cmd w.cmd_word,
  bytes16-net16 e h.reserved w.reserved_word,
  bytes32-net32 e h.seq_no w.seq_no_word,
  bytes32-net32 e h.payload_len w.payload_len_word,
)

-- A host of either order reads back the header that network order holds.
pub header_read :
    (e : Endian) {h : WireHeader} (rest : List ℕ)
    → IsWire h
    → net_to_host e (header_of_bytes e (header_bytes big h ++ rest)) ≡ h
unfolding net_to_host header_of_bytes header_bytes
header_read e {h} rest w = λ i. record {
  version = mod-eq_of_lt w.version_byte i;
  src = mod-eq_of_lt w.src_byte i;
  dst = mod-eq_of_lt w.dst_byte i;
  flags = mod-eq_of_lt w.flags_byte i;
  cmd = net16_read e h.cmd w.cmd_word i;
  reserved = net16_read e h.reserved w.reserved_word i;
  seq_no = net32_read e h.seq_no w.seq_no_word i;
  payload_len = net32_read e h.payload_len w.payload_len_word i;
}
