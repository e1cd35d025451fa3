-- ===== src/Ipc/Codec.antt =====
-- shared/ipc/IpcCodec.{h,cpp}, with the byte order of IpcProtocol.cpp: frames to and from bytes.
-- The host's byte order is a parameter: `htons` and its kin swap on a little-endian host, and a
-- `memcpy` of the packed header stores each word in the host's order.
pub mod Order
pub mod RoundTrip
use nf_nms.Common.{
  ℕ, ◌+◌, ◌-◌, ◌*◌, ◌/◌, ◌%◌, ◌^◌, List, [], ◌∷◌, ◌++◌, Option, none, some, Bool, true, false, not,
  if◌then◌else◌, ltb, ◌==◌, length, take, drop, get_or,
}
use nf_nms.Ipc.Protocol.Daemon.{daemon_of_code}
use nf_nms.Ipc.Protocol.Cmd.{cmd_of_code}
use nf_nms.Ipc.Message.{IpcMessage, WireHeader, build, to_wire_header, protocol_version}

abbrev pub max_frame_size : ℕ
max_frame_size = 1024 * 1024

-- `sizeof(IpcWireHeader)`
abbrev pub header_len : ℕ
header_len = 16

pub data Endian : Type 0 where
  little big : Endian

swap16 : ℕ → ℕ
swap16 v = v % 256 * 256 + v / 256

swap32 : ℕ → ℕ
swap32 v = v % 256 * 2 ^ 24 + v / 256 % 256 * 2 ^ 16 + v / 2 ^ 16 % 256 * 256 + v / 2 ^ 24

-- `htons` and `ntohs`, `htonl` and `ntohl`
unfoldable pub net16 : Endian → ℕ → ℕ
unfolding swap16
net16 little v = swap16 v
net16 big v = v

pub net32 : Endian → ℕ → ℕ
unfolding swap32
net32 little v = swap32 v
net32 big v = v

-- The bytes of a word in memory.
unfoldable pub bytes16 : Endian → ℕ → List ℕ
bytes16 little v = v % 256 ∷ v / 256 % 256 ∷ []
bytes16 big v = v / 256 % 256 ∷ v % 256 ∷ []

pub bytes32 : Endian → ℕ → List ℕ
bytes32 little v = v % 256 ∷ v / 256 % 256 ∷ v / 2 ^ 16 % 256 ∷ v / 2 ^ 24 % 256 ∷ []
bytes32 big v = v / 2 ^ 24 % 256 ∷ v / 2 ^ 16 % 256 ∷ v / 256 % 256 ∷ v % 256 ∷ []

-- A word read from two or four bytes of memory.
unfoldable pub word16 : Endian → ℕ → ℕ → ℕ
word16 little a b = a + b * 256
word16 big a b = a * 256 + b

pub word32 : Endian → ℕ → ℕ → ℕ → ℕ → ℕ
word32 little a b c d = a + b * 256 + c * 2 ^ 16 + d * 2 ^ 24
word32 big a b c d = a * 2 ^ 24 + b * 2 ^ 16 + c * 256 + d

-- `hostToNet` and `netToHost`
unfoldable pub host_to_net : Endian → WireHeader → WireHeader
unfolding net16 net32
host_to_net e h = record h {
  cmd = net16 e h.cmd;
  reserved = net16 e h.reserved;
  seq_no = net32 e h.seq_no;
  payload_len = net32 e h.payload_len;
}

pub net_to_host : Endian → WireHeader → WireHeader
unfolding net16 net32
net_to_host e h = record h {
  cmd = net16 e h.cmd;
  reserved = net16 e h.reserved;
  seq_no = net32 e h.seq_no;
  payload_len = net32 e h.payload_len;
}

-- `memcpy` of the packed header to bytes, and back. The first four fields are bytes.
unfoldable pub header_bytes : Endian → WireHeader → List ℕ
unfolding bytes16 bytes32
header_bytes e h =
    h.version % 256
    ∷ h.src % 256
    ∷ h.dst % 256
    ∷ h.flags % 256
    ∷ (bytes16 e h.cmd ++ (bytes16 e h.reserved ++ (bytes32 e h.seq_no ++ bytes32 e h.payload_len)))

pub header_of_bytes : Endian → List ℕ → WireHeader
unfolding word16 word32
header_of_bytes e bs = record {
  version = byte 0;
  src = byte 1;
  dst = byte 2;
  flags = byte 3;
  cmd = word16 e (byte 4) (byte 5);
  reserved = word16 e (byte 6) (byte 7);
  seq_no = word32 e (byte 8) (byte 9) (byte 10) (byte 11);
  payload_len = word32 e (byte 12) (byte 13) (byte 14) (byte 15);
}
  where
    byte : ℕ → ℕ
    byte i = get_or bs i 0

-- `encode`; the empty list is the empty vector, and `none` a null pointer.
unfoldable pub encode : Endian → Option IpcMessage → List ℕ
encode e none = []
encode e (some m) =
    if ltb (max_frame_size - header_len) (length m.payload)
    then []
    else header_bytes e (host_to_net e (to_wire_header m)) ++ m.payload

pub data DecodeResult : Type 0 where
  ok need_more_data invalid_frame too_large : DecodeResult

-- A frame view: `none` is a null pointer, and the list's length is the view's size.
abbrev pub FrameView : Type 0
FrameView = Option (List ℕ)

-- The message that `decode` builds from a header and a frame.
pub message_of : WireHeader → List ℕ → IpcMessage
unfolding build
message_of wire frame = record {
  header =
      record (build (daemon_of_code wire.src) (daemon_of_code wire.dst) (cmd_of_code wire.cmd)
        wire.seq_no wire.flags) { version = wire.version };
  payload = take wire.payload_len (drop header_len frame);
}

-- What `decode` does once the header has been read.
pub decode_body : WireHeader → List ℕ → DecodeResult × Option IpcMessage
decode_body wire frame =
    if not (wire.version == protocol_version)
    then (invalid_frame, none)
    else if not (wire.reserved == 0)
    then (invalid_frame, none)
    else if ltb (max_frame_size - header_len) wire.payload_len
    then (too_large, none)
    else if ltb (length frame) (header_len + wire.payload_len)
    then (need_more_data, none)
    else if not (length frame == header_len + wire.payload_len)
    then (invalid_frame, none)
    else (ok, some (message_of wire frame))

pub decode : Endian → FrameView → DecodeResult × Option IpcMessage
decode e none = (invalid_frame, none)
decode e (some frame) =
    if ltb (length frame) header_len
    then (need_more_data, none)
    else decode_body (net_to_host e (header_of_bytes e frame)) frame

pub data PeekResult : Type 0 where
  ok need_more_data invalid_frame : PeekResult

pub peek_body : WireHeader → PeekResult × ℕ
peek_body wire =
    if not (wire.version == protocol_version)
    then (invalid_frame, 0)
    else if not (wire.reserved == 0)
    then (invalid_frame, 0)
    else if ltb (max_frame_size - header_len) wire.payload_len
    then (invalid_frame, 0)
    else (ok, header_len + wire.payload_len)

-- `peekFrameSize`: the result and `outFrameSize`.
pub peek_frame_size : Endian → FrameView → PeekResult × ℕ
peek_frame_size e none = (need_more_data, 0)
peek_frame_size e (some bytes) =
    if ltb (length bytes) header_len
    then (need_more_data, 0)
    else peek_body (net_to_host e (header_of_bytes e bytes))
