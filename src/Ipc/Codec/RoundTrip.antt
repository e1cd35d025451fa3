-- ===== src/Ipc/Codec/RoundTrip.antt =====
-- `IpcCodec`: what one host encodes another decodes, whole or cut short, and what is decoded is
-- the one frame that encodes the message.
use nf_nms.Common.{
  ℕ, ◌+◌, ◌-◌, ◌%◌, ◌^◌, ◌≤◌, ◌<◌, ◌≡◌, List, ◌++◌, none, some, false, refl, ap, sym, ◌∙◌, arith,
  length, take, drop, ltb, length-append, take-length, length-take, append_assoc, drop-append_eq,
  take-append_ge, dec_lt,
}
use mathlib.Core.Path.{ap₂}
use native.Mathlib.Nat.{mod-eq_of_lt}
use nf_nms.Ipc.Protocol.Daemon.{daemon_code, daemon_of_code}
use nf_nms.Ipc.Protocol.Cmd.{cmd_code, cmd_of_code}
use nf_nms.Ipc.Message.{IpcMessage, WireHeader, to_wire_header, protocol_version}
use nf_nms.Ipc.Codec.{
  Endian, big, net_to_host, header_bytes, header_of_bytes, header_len, max_frame_size, encode,
  decode, decode_body, message_of, peek_body, DecodeResult, peek_frame_size, PeekResult,
}
use nf_nms.Ipc.Codec.Order.{IsWire, header_bytes-host_to_net, header_read}

-- A message that the wire can carry: its fields are in the range of their words, no value that
-- has a name is spelled without it, the version is this one, and the payload fits a frame.
pub record IsSendable (m : IpcMessage) : Type 0 where
  pub version_this : m.header.version ≡ protocol_version
  pub src_byte : daemon_code m.header.src < 256
  pub src_value : daemon_of_code (daemon_code m.header.src) ≡ m.header.src
  pub dst_byte : daemon_code m.header.dst < 256
  pub dst_value : daemon_of_code (daemon_code m.header.dst) ≡ m.header.dst
  pub flags_byte : m.header.flags < 256
  pub cmd_word : cmd_code m.header.cmd < 2 ^ 16
  pub cmd_value : cmd_of_code (cmd_code m.header.cmd) ≡ m.header.cmd
  pub seq_no_word : m.header.seq_no < 2 ^ 32
  pub payload_fits : length m.payload ≤ max_frame_size - header_len

pub length-header_bytes : (h : WireHeader) → length (header_bytes big h) ≡ header_len
unfolding header_bytes
length-header_bytes h = refl

pub IsSendable-IsWire : {m : IpcMessage} → IsSendable m → IsWire (to_wire_header m)
unfolding to_wire_header
IsSendable-IsWire s = omega arith

-- A frame is the header in network order, then the payload, on every host.
pub encode_frame :
    (e : Endian) {m : IpcMessage}
    → IsSendable m
    → encode e (some m) ≡ header_bytes big (to_wire_header m) ++ m.payload
unfolding encode
encode_frame e {m} s =
    let t : ltb (max_frame_size - header_len) (length m.payload) ≡ false = ground arith in
    rw t (ap (λ h. h ++ m.payload) (header_bytes-host_to_net e (IsSendable-IsWire s)))

pub length-encode :
    (e : Endian) {m : IpcMessage}
    → IsSendable m
    → length (encode e (some m)) ≡ header_len + length m.payload
length-encode e {m} s =
    ap length (encode_frame e s)
    ∙ length-append (header_bytes big (to_wire_header m)) m.payload
    ∙ ap (λ k. k + length m.payload) (length-header_bytes (to_wire_header m))

decode-some :
    (e : Endian) (frame : List ℕ)
    → header_len ≤ length frame
    → decode e (some frame) ≡ decode_body (net_to_host e (header_of_bytes e frame)) frame
unfolding decode
decode-some e frame h = ground arith

decode_few :
    (e : Endian) (frame : List ℕ)
    → length frame < header_len
    → decode e (some frame) ≡ (DecodeResult.need_more_data, none)
unfolding decode
decode_few e frame h = ground arith

peek_some :
    (e : Endian) (bytes : List ℕ)
    → header_len ≤ length bytes
    → peek_frame_size e (some bytes) ≡ peek_body (net_to_host e (header_of_bytes e bytes))
unfolding peek_frame_size
peek_some e bytes h = ground arith

payload_len_lem :
    {m : IpcMessage} → IsSendable m → (to_wire_header m).payload_len ≡ length m.payload
unfolding to_wire_header
payload_len_lem s = mod-eq_of_lt (omega arith)

fits :
    {m : IpcMessage} → IsSendable m → (to_wire_header m).payload_len ≤ max_frame_size - header_len
fits s = omega (arith, payload_len_lem s)

-- The bytes of a frame, followed by others.
module _ (e : Endian) {m : IpcMessage} (s : IsSendable m) (rest : List ℕ) where
  wire_frame : List ℕ
  wire_frame = header_bytes big (to_wire_header m) ++ rest

  length-wire_frame : length wire_frame ≡ header_len + length rest
  unfolding wire_frame
  length-wire_frame =
      length-append (header_bytes big (to_wire_header m)) rest
      ∙ ap (λ k. k + length rest) (length-header_bytes (to_wire_header m))

  header_fits : header_len ≤ length wire_frame
  header_fits = omega (arith, length-wire_frame)

  decode_wire : decode e (some wire_frame) ≡ decode_body (to_wire_header m) wire_frame
  unfolding wire_frame
  decode_wire =
      decode-some e wire_frame header_fits
      ∙ ap (λ w. decode_body w wire_frame) (header_read e rest (IsSendable-IsWire s))

  peek_wire : peek_frame_size e (some wire_frame) ≡ peek_body (to_wire_header m)
  unfolding wire_frame
  peek_wire =
      peek_some e wire_frame header_fits ∙ ap peek_body (header_read e rest (IsSendable-IsWire s))

message_of-wire :
    {m : IpcMessage}
    → IsSendable m
    → message_of (to_wire_header m) (header_bytes big (to_wire_header m) ++ m.payload) ≡ m
unfolding message_of to_wire_header
message_of-wire {m} s = λ i. record {
  header = record {
    version = m.header.version;
    src = s.src_value i;
    dst = s.dst_value i;
    flags = m.header.flags;
    cmd = s.cmd_value i;
    seq_no = m.header.seq_no;
  };
  payload = payload_back i;
}
  where
    payload_back :
        take
          (length m.payload % 2 ^ 32)
          (drop header_len (header_bytes big (to_wire_header m) ++ m.payload))
        ≡ m.payload
    payload_back =
        ap₂ take (mod-eq_of_lt (omega arith)) (
          drop-append_eq header_len (header_bytes big (to_wire_header m)) m.payload
            (length-header_bytes (to_wire_header m)))
        ∙ take-length m.payload

-- The branches of `decode_body` on a header that is this version's.
module _ (w : WireHeader) (frame : List ℕ) (version : w.version ≡ protocol_version)
    (reserved : w.reserved ≡ 0) (fits : w.payload_len ≤ max_frame_size - header_len) where
  decode_body_whole :
      length frame ≡ header_len + w.payload_len
      → decode_body w frame ≡ (DecodeResult.ok, some (message_of w frame))
  unfolding decode_body
  decode_body_whole h = ground arith

  decode_body_short :
      length frame < header_len + w.payload_len
      → decode_body w frame ≡ (DecodeResult.need_more_data, none)
  unfolding decode_body
  decode_body_short h = ground arith

  peek_body_ok : peek_body w ≡ (PeekResult.ok, header_len + w.payload_len)
  unfolding peek_body
  peek_body_ok = ground arith

-- The frame that a host of either byte order makes of a sendable message (of this version, its
-- fields within their widths, its payload within the limit) is decoded to the same message by a
-- host of either byte order.
pub decode-encode :
    (e e' : Endian) {m : IpcMessage}
    → IsSendable m
    → decode e' (some (encode e (some m))) ≡ (DecodeResult.ok, some m)
unfolding wire_frame
decode-encode e e' {m} s =
    ap (λ f. decode e' (some f)) (encode_frame e s)
    ∙ decode_wire e' s m.payload
    ∙ body
    ∙ ap (λ k. (DecodeResult.ok, some k)) (message_of-wire s)
  where
    body :
        decode_body (to_wire_header m) (wire_frame e' s m.payload)
        ≡ (DecodeResult.ok, some (message_of (to_wire_header m) (wire_frame e' s m.payload)))
    body =
        decode_body_whole (to_wire_header m) (wire_frame e' s m.payload)
          (unfold to_wire_header in s.version_this) (unfold to_wire_header in refl) (fits s)
          (length-wire_frame e' s m.payload ∙ ap (λ k. header_len + k) (sym (payload_len_lem s)))

-- On a stream that starts with the frame of a sendable message, the size read is that frame's,
-- whatever follows it.
pub peek_frame_size-encode :
    (e e' : Endian) {m : IpcMessage} (rest : List ℕ)
    → IsSendable m
    → peek_frame_size e' (some (encode e (some m) ++ rest))
      ≡ (PeekResult.ok, length (encode e (some m)))
unfolding wire_frame
peek_frame_size-encode e e' {m} rest s =
    ap (λ f. peek_frame_size e' (some (f ++ rest))) (encode_frame e s)
    ∙ ap (λ f. peek_frame_size e' (some f)) (append_assoc _ m.payload rest)
    ∙ peek_wire e' s (m.payload ++ rest)
    ∙ peek_body_ok (to_wire_header m) (m.payload) (unfold to_wire_header in s.version_this)
        (unfold to_wire_header in refl) (fits s)
    ∙ ap (λ k. (PeekResult.ok, k))
        (ap (λ k. header_len + k) (payload_len_lem s) ∙ sym (length-encode e s))

-- A proper part of the frame of a sendable message, from its start, is neither refused nor taken
-- for a frame: `decode` asks for more data.
pub decode_truncated :
    (e e' : Endian) {m : IpcMessage} (n : ℕ)
    → IsSendable m
    → n < length (encode e (some m))
    → decode e' (some (take n (encode e (some m)))) ≡ (DecodeResult.need_more_data, none)
unfolding wire_frame
decode_truncated e e' {m} n s h = elim (dec_lt n header_len) [
  | yes few ↦
      decode_few e' (take n (encode e (some m))) (omega (arith, length-take n (encode e (some m))))
  | no more ↦
      ap (λ f. decode e' (some f)) (cut more)
      ∙ decode_wire e' s (take (n - header_len) m.payload)
      ∙ decode_body_short (to_wire_header m) (wire_frame e' s (take (n - header_len) m.payload))
          (unfold to_wire_header in s.version_this) (unfold to_wire_header in refl) (fits s)
          (short more)
]
  where
    cut :
        ¬ (n < header_len)
        → take n (encode e (some m)) ≡ wire_frame e' s (take (n - header_len) m.payload)
    cut more =
        ap (take n) (encode_frame e s)
        ∙ take-append_ge n (header_bytes big (to_wire_header m)) m.payload
            (omega (arith, length-header_bytes (to_wire_header m)))
        ∙ ap (λ k. header_bytes big (to_wire_header m) ++ take (n - k) m.payload)
            (length-header_bytes (to_wire_header m))

    short :
        ¬ (n < header_len)
        → length (wire_frame e' s (take (n - header_len) m.payload))
          < header_len + (to_wire_header m).payload_len
    short more = omega (
      arith,
      length-wire_frame e' s (take (n - header_len) m.payload),
      payload_len_lem s,
      length-encode e s,
      length-take (n - header_len) m.payload,
    )

-- The header alone tells the size.
pub peek_frame_size-take :
    (e e' : Endian) {m : IpcMessage} (n : ℕ) (rest : List ℕ)
    → IsSendable m
    → header_len ≤ n
    → peek_frame_size e' (some (take n (encode e (some m) ++ rest)))
      ≡ (PeekResult.ok, length (encode e (some m)))
unfolding wire_frame
peek_frame_size-take e e' {m} n rest s h =
    ap (λ f. peek_frame_size e' (some (take n (f ++ rest)))) (encode_frame e s)
    ∙ ap (λ f. peek_frame_size e' (some (take n f))) (append_assoc _ m.payload rest)
    ∙ ap (λ f. peek_frame_size e' (some f))
        (take-append_ge n (header_bytes big (to_wire_header m)) (m.payload ++ rest)
          (omega (arith, length-header_bytes (to_wire_header m))))
    ∙ peek_wire e' s (take (n - length (header_bytes big (to_wire_header m))) (m.payload ++ rest))
    ∙ peek_body_ok (to_wire_header m) m.payload (unfold to_wire_header in s.version_this)
        (unfold to_wire_header in refl) (fits s)
    ∙ ap (λ k. (PeekResult.ok, k))
        (ap (λ k. header_len + k) (payload_len_lem s) ∙ sym (length-encode e s))
