-- ===== src/Probed/Icmp.antt =====
-- probed/icmp/IcmpPacket.{h,cpp} and IcmpCodec.{h,cpp}: ICMP echo packets to and from bytes. The
-- host's byte order is a parameter, as in the IPC codec.
pub mod Checksum
pub mod RoundTrip
use nf_nms.Common.{
  ℕ, zero, suc, ◌+◌, ◌-◌, ◌*◌, ◌/◌, ◌%◌, ◌^◌, List, [], ◌∷◌, ◌++◌, Option, none, some, Bool, true,
  false, if◌then◌else◌, ltb, leb, ◌==◌, length, take, drop, set, replicate, get_or,
}
use nf_nms.Ipc.Codec.{Endian, net16, bytes16, word16}

-- The types and codes are enumerations over a byte, cast from any byte that arrives.
abbrev pub echo_request : ℕ
echo_request = 8

abbrev pub echo : ℕ
echo = 0

pub record IcmpHeader : Type 0 where
  pub icmp_type : ℕ
  pub code : ℕ
  pub checksum : ℕ
  pub identifier : ℕ
  pub sequence : ℕ

pub record IcmpPacket : Type 0 where
  pub header : IcmpHeader
  pub payload : List ℕ

pub build_echo_request : ℕ → ℕ → IcmpHeader
build_echo_request identifier sequence = record {
  icmp_type = echo_request;
  code = echo;
  checksum = 0;
  identifier = identifier;
  sequence = sequence;
}

abbrev pub echo_header_len : ℕ
echo_header_len = 8

abbrev pub ipv4_min_header_len : ℕ
ipv4_min_header_len = 20

pub data IcmpDecodeResult : Type 0 where
  ok empty invalid_frame : IcmpDecodeResult

-- The 16-bit words that are added up, with a lone last byte in the high half.
pub sum_words : Endian → ℕ → List ℕ → ℕ
unfolding net16 word16
sum_words e sum [] = sum
sum_words e sum (a ∷ []) = (sum + a * 256) % 2 ^ 32
sum_words e sum (a ∷ b ∷ bytes) = sum_words e ((sum + net16 e (word16 e a b)) % 2 ^ 32) bytes

-- The carries are folded in while there are any, here for at most `fuel` rounds.
pub fold_carries : ℕ → ℕ → ℕ
fold_carries zero sum = sum
fold_carries (suc fuel) sum =
    let folded = fold_carries fuel (sum % 2 ^ 16 + sum / 2 ^ 16) in
    if sum / 2 ^ 16 == 0 then sum else folded

pub calculate_checksum : Endian → List ℕ → ℕ
unfolding sum_words fold_carries
calculate_checksum e bytes = (2 ^ 32 - 1 - fold_carries 2 (sum_words e 0 bytes)) % 2 ^ 16

pub read_u16_be : Endian → List ℕ → ℕ → ℕ
unfolding net16 word16
read_u16_be e bytes offset =
    net16 e (word16 e (get_or bytes offset 0) (get_or bytes (suc offset) 0))

-- `memcpy` of some bytes into a buffer that has room for them.
pub copy_at : List ℕ → ℕ → List ℕ → List ℕ
copy_at buf offset bytes = take offset buf ++ (bytes ++ drop (offset + length bytes) buf)

pub write_u16_be : Endian → List ℕ → ℕ → ℕ → List ℕ
unfolding net16 bytes16 copy_at
write_u16_be e buf offset value = copy_at buf offset (bytes16 e (net16 e value))

-- The frame before its checksum is written.
pub unsummed : Endian → IcmpPacket → List ℕ
unfolding write_u16_be copy_at
unsummed e packet =
    let frame = replicate (echo_header_len + length packet.payload) 0 in
    let typed = set (set frame 0 packet.header.icmp_type) 1 packet.header.code in
    let cleared = write_u16_be e typed 2 0 in
    let named = write_u16_be e cleared 4 packet.header.identifier in
    let numbered = write_u16_be e named 6 packet.header.sequence in
    copy_at numbered echo_header_len packet.payload

pub encode : Endian → IcmpPacket → List ℕ
unfolding unsummed write_u16_be calculate_checksum
encode e packet =
    let frame = unsummed e packet in write_u16_be e frame 2 (calculate_checksum e frame)

-- Where the ICMP header starts, `none` for `kInvalidIcmpOffset`: after an IPv4 header when the
-- first nibble is 4, else at the front.
pub ip_header_len : List ℕ → ℕ
ip_header_len frame = get_or frame 0 0 % 16 * 4

pub after_ip_header : List ℕ → Option ℕ
unfolding ip_header_len
after_ip_header frame =
    if ltb (length frame) ipv4_min_header_len
    then none
    else if ltb (ip_header_len frame) ipv4_min_header_len
    then none
    else if ltb (length frame) (ip_header_len frame)
    then none
    else if ltb (length frame - ip_header_len frame) echo_header_len
    then none
    else some (ip_header_len frame)

pub icmp_offset : List ℕ → Option ℕ
unfolding after_ip_header
icmp_offset [] = none
icmp_offset (x ∷ xs) =
    if ltb (length (x ∷ xs)) echo_header_len
    then none
    else if x / 16 == 4
    then after_ip_header (x ∷ xs)
    else some 0

pub packet_of : Endian → List ℕ → IcmpPacket
unfolding read_u16_be
packet_of e icmp = record {
  header = record {
    icmp_type = get_or icmp 0 0;
    code = get_or icmp 1 0;
    checksum = read_u16_be e icmp 2;
    identifier = read_u16_be e icmp 4;
    sequence = read_u16_be e icmp 6;
  };
  payload = drop echo_header_len icmp;
}

decode_at : Endian → List ℕ → Option ℕ → IcmpDecodeResult × Option IcmpPacket
unfolding packet_of
decode_at e frame none = (invalid_frame, none)
decode_at e frame (some offset) =
    if ltb (length frame - offset) echo_header_len
    then (invalid_frame, none)
    else (ok, some (packet_of e (drop offset frame)))

pub decode : Endian → List ℕ → IcmpDecodeResult × Option IcmpPacket
unfolding decode_at icmp_offset
decode e [] = (empty, none)
decode e (x ∷ xs) = decode_at e (x ∷ xs) (icmp_offset (x ∷ xs))
