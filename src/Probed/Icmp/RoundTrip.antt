-- ===== src/Probed/Icmp/RoundTrip.antt =====
-- Frames of IcmpCodec.cpp: what is sent, and what is read back from it.
use nf_nms.Common.{
  Bytes, get_or, length-append, drop-append_eq, if_cases, ltb, ℕ, suc, ◌+◌, ◌-◌, ◌*◌, ◌/◌, ◌%◌, ◌^◌,
  ◌≤◌, ◌<◌, ◌≡◌, ◌≢◌, refl, sym, ap, ◌∙◌, List, [], ◌∷◌, ◌++◌, some, length, drop, replicate, arith,
  append-nil, drop-add, drop-ge, length-replicate,
}
use nf_nms.Ipc.Codec.{Endian, bytes16}
use nf_nms.Ipc.Codec.Order.{bytes16-net16, net16_read}
use nf_nms.Probed.Icmp.{
  IcmpPacket, ok, fold_carries, calculate_checksum, copy_at, write_u16_be, unsummed, encode,
  icmp_offset, packet_of, decode, read_u16_be, decode_at, after_ip_header, ip_header_len,
}
use nf_nms.Probed.Icmp.Checksum.{
  word_sum, word_sum_le, fold_carries-complement, calculate_checksum_lem,
}

-- Every field is in its range.
pub record IsPacket (p : IcmpPacket) : Type 0 where
  pub type_byte : p.header.icmp_type < 256
  pub code_byte : p.header.code < 256
  pub identifier_word : p.header.identifier < 2 ^ 16
  pub sequence_word : p.header.sequence < 2 ^ 16
  pub payload_bytes : Bytes p.payload

-- The frame of a packet with a given checksum.
abbrev after_type : IcmpPacket → ℕ → List ℕ
after_type p c =
    p.header.code
    ∷ c / 256 % 256
    ∷ c % 256
    ∷ p.header.identifier / 256 % 256
    ∷ p.header.identifier % 256
    ∷ p.header.sequence / 256 % 256
    ∷ p.header.sequence % 256
    ∷ p.payload

abbrev pub frame_of : IcmpPacket → ℕ → List ℕ
frame_of p c = p.header.icmp_type ∷ after_type p c

replicate-eight :
    (n : ℕ) → replicate {A = ℕ} (8 + n) 0 ≡ 0 ∷ 0 ∷ 0 ∷ 0 ∷ 0 ∷ 0 ∷ 0 ∷ 0 ∷ replicate n 0
replicate-eight n =
    let e : 8 + n ≡ suc (suc (suc (suc (suc (suc (suc (suc n))))))) = omega arith in
    ap (λ k. replicate {A = ℕ} k 0) e

unsummed_lem : (e : Endian) (p : IcmpPacket) → IsPacket p → unsummed e p ≡ frame_of p 0
unfolding unsummed write_u16_be copy_at bytes16
unsummed_lem e p h = rw (
  bytes16-net16 e 0 (omega arith),
  bytes16-net16 e p.header.identifier h.identifier_word,
  bytes16-net16 e p.header.sequence h.sequence_word,
  drop-add 8 (length p.payload),
  replicate-eight (length p.payload),
  drop-ge (length p.payload) (replicate {A = ℕ} (length p.payload) 0)
      (omega (arith, length-replicate {A = ℕ} (length p.payload) 0)),
  append-nil p.payload,
)

mod_byte : (n : ℕ) → n % 256 < 256
mod_byte n = omega arith

frame_of-Bytes : (p : IcmpPacket) (c : ℕ) → IsPacket p → Bytes (frame_of p c)
frame_of-Bytes p c h = (
  h.type_byte,
  (
    h.code_byte,
    (
      mod_byte (c / 256),
      (
        mod_byte c,
        (
          mod_byte (p.header.identifier / 256),
          (
            mod_byte p.header.identifier,
            (mod_byte (p.header.sequence / 256), (mod_byte p.header.sequence, h.payload_bytes)),
          ),
        ),
      ),
    ),
  ),
)

word_sum-frame_of :
    (p : IcmpPacket) (c : ℕ) → c < 2 ^ 16 → word_sum (frame_of p c) ≡ word_sum (frame_of p 0) + c
word_sum-frame_of p c h = omega arith

word_sum_room :
    (p : IcmpPacket)
    → IsPacket p
    → 8 + length p.payload ≤ 131072
    → word_sum (frame_of p 0) + 65535 < 2 ^ 32
word_sum_room p h l = omega (arith, word_sum_le p.payload h.payload_bytes, h.type_byte, h.code_byte)

checksum_word : (e : Endian) (bytes : List ℕ) → calculate_checksum e bytes < 2 ^ 16
unfolding calculate_checksum
checksum_word e bytes = omega arith

-- What is sent: the packet's frame with the checksum of its frame without one.
pub encode_lem :
    (e : Endian) (p : IcmpPacket)
    → IsPacket p
    → encode e p ≡ frame_of p (calculate_checksum e (frame_of p 0))
unfolding encode write_u16_be copy_at bytes16
encode_lem e p h = rw (
  unsummed_lem e p h,
  bytes16-net16 e (calculate_checksum e (frame_of p 0)) (checksum_word e (frame_of p 0)),
)

-- The checksum over a frame that is sent, its checksum included, is zero, on a host of either byte
-- order, if the frame is at most 131072 bytes long.
pub calculate_checksum-encode :
    (e : Endian) (p : IcmpPacket)
    → IsPacket p
    → 8 + length p.payload ≤ 131072
    → calculate_checksum e (encode e p) ≡ 0
calculate_checksum-encode e p h l =
    let c = calculate_checksum e (frame_of p 0) in
    let w = checksum_word e (frame_of p 0) in
    let room = word_sum_room p h l in
    let f = word_sum-frame_of p c w in
    let k : c ≡ 65535 - fold_carries 2 (word_sum (frame_of p 0)) =
      calculate_checksum_lem e (frame_of p 0) (frame_of-Bytes p 0 h) (omega arith) in
    ap (calculate_checksum e) (encode_lem e p h)
    ∙ calculate_checksum_lem e (frame_of p c) (frame_of-Bytes p c h) (omega arith)
    ∙ ap (λ n. 65535 - fold_carries 2 n) (f ∙ ap (λ n. word_sum (frame_of p 0) + n) k)
    ∙ ap (λ n. 65535 - n) (fold_carries-complement (word_sum (frame_of p 0)) room)

-- The packet with its checksum filled in.
abbrev pub stored : IcmpPacket → ℕ → IcmpPacket
stored p c = record p { header = record p.header { checksum = c } }

packet_of-frame_of :
    (e : Endian) (p : IcmpPacket) (c : ℕ)
    → IsPacket p
    → c < 2 ^ 16
    → packet_of e (frame_of p c) ≡ stored p c
unfolding packet_of read_u16_be
packet_of-frame_of e p c h k = λ i. record {
  header = record {
    icmp_type = p.header.icmp_type;
    code = p.header.code;
    checksum = net16_read e c k i;
    identifier = net16_read e p.header.identifier h.identifier_word i;
    sequence = net16_read e p.header.sequence h.sequence_word i;
  };
  payload = p.payload;
}

icmp_offset_plain :
    (x : ℕ) (xs : List ℕ) → 8 ≤ length (x ∷ xs) → x / 16 ≢ 4 → icmp_offset (x ∷ xs) ≡ some 0
unfolding icmp_offset
icmp_offset_plain x xs h n = ground arith

icmp_offset_ip :
    (x : ℕ) (xs : List ℕ)
    → x / 16 ≡ 4
    → 20 ≤ x % 16 * 4
    → x % 16 * 4 + 8 ≤ length (x ∷ xs)
    → icmp_offset (x ∷ xs) ≡ some (x % 16 * 4)
unfolding icmp_offset after_ip_header ip_header_len
icmp_offset_ip x xs h n l = ground arith

decode_lem :
    (e : Endian) (x : ℕ) (xs : List ℕ) (offset : ℕ)
    → icmp_offset (x ∷ xs) ≡ some offset
    → offset + 8 ≤ length (x ∷ xs)
    → decode e (x ∷ xs) ≡ (ok, some (packet_of e (drop offset (x ∷ xs))))
unfolding decode decode_at
decode_lem e x xs offset h l = rw h (
    if_cases (λ r. r ≡ (ok, some (packet_of e (drop offset (x ∷ xs)))))
      (ltb (length (x ∷ xs) - offset) 8) (λ t. absurd (ground (arith, t))) (λ _. refl))

-- A packet that is sent is read back, with the checksum that was computed, if its type is not
-- in 64..79, where the first byte looks like that of an IPv4 header.
pub icmp_decode-encode :
    (e : Endian) (p : IcmpPacket)
    → IsPacket p
    → p.header.icmp_type / 16 ≢ 4
    → decode e (encode e p) ≡ (ok, some (stored p (calculate_checksum e (frame_of p 0))))
icmp_decode-encode e p h n =
    let c = calculate_checksum e (frame_of p 0) in
    ap (decode e) (encode_lem e p h)
    ∙ decode_lem e p.header.icmp_type (after_type p c) 0
        (icmp_offset_plain p.header.icmp_type (after_type p c) (omega arith) n) (omega arith)
    ∙ ap (λ k. (ok, some k)) (packet_of-frame_of e p c h (checksum_word e (frame_of p 0)))

-- An IPv4 header: its length field says how long it is.
pub record IsIpHeader (ip : List ℕ) : Type 0 where
  pub version : get_or ip 0 0 / 16 ≡ 4
  pub long_enough : 20 ≤ length ip
  pub length_field : get_or ip 0 0 % 16 * 4 ≡ length ip

-- A packet that is sent and arrives behind an IPv4 header, options included, is read back, with the checksum that was computed.
pub decode_behind_ip :
    (e : Endian) (ip : List ℕ) (p : IcmpPacket)
    → IsIpHeader ip
    → IsPacket p
    → decode e (ip ++ encode e p) ≡ (ok, some (stored p (calculate_checksum e (frame_of p 0))))
decode_behind_ip e [] p i h = absurd (omega (arith, i.long_enough))
decode_behind_ip e (x ∷ ip) p i h =
    let c = calculate_checksum e (frame_of p 0) in
    let l = length-append ip (frame_of p c) in
    let o =
      icmp_offset_ip x (ip ++ frame_of p c) i.version (omega (arith, i.long_enough, i.length_field))
        (omega (arith, i.length_field)) in
    ap (λ f. decode e (x ∷ (ip ++ f))) (encode_lem e p h)
    ∙ decode_lem e x (ip ++ frame_of p c) (x % 16 * 4) o (omega (arith, i.length_field))
    ∙ ap (λ f. (ok, some (packet_of e f)))
        (drop-append_eq (x % 16 * 4) (x ∷ ip) (frame_of p c) (sym i.length_field))
    ∙ ap (λ k. (ok, some k)) (packet_of-frame_of e p c h (checksum_word e (frame_of p 0)))

-- Where a header is found, it is inside the frame.
pub icmp_offset_inside :
    (frame : List ℕ) (offset : ℕ) → icmp_offset frame ≡ some offset → offset + 8 ≤ length frame
unfolding icmp_offset after_ip_header
icmp_offset_inside [] offset h = ground arith
icmp_offset_inside (x ∷ frame) offset h = ground arith
