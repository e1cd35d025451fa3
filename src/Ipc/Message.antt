-- ===== src/Ipc/Message.antt =====
-- shared/ipc/IpcMessage.{h,cpp}: a header and a payload of bytes.
use nf_nms.Common.{ℕ, ◌%◌, ◌^◌, List, [], Bool, length}
use nf_nms.Ipc.Protocol.Daemon.{IpcDaemon, daemon_code}
use nf_nms.Ipc.Protocol.Cmd.{IpcCmd, cmd_code}
use nf_nms.Ipc.Protocol.Flag.{IpcFlag, has_flag}

abbrev pub protocol_version : ℕ
protocol_version = 2

pub record IpcHeader : Type 0 where
  pub version : ℕ
  pub src : IpcDaemon
  pub dst : IpcDaemon
  pub flags : ℕ
  pub cmd : IpcCmd
  pub seq_no : ℕ

unfoldable pub build : IpcDaemon → IpcDaemon → IpcCmd → ℕ → ℕ → IpcHeader
build src dst cmd seq_no flags = record {
  version = protocol_version;
  src = src;
  dst = dst;
  flags = flags;
  cmd = cmd;
  seq_no = seq_no;
}

pub record IpcMessage : Type 0 where
  pub header : IpcHeader
  pub payload : List ℕ

-- The default constructor.
unfoldable pub new : IpcMessage
new = record {
  header = record {
    version = protocol_version;
    src = IpcDaemon.unknown;
    dst = IpcDaemon.unknown;
    flags = 0;
    cmd = IpcCmd.unknown;
    seq_no = 0;
  };
  payload = [];
}

abbrev pub get_src : IpcMessage → IpcDaemon
get_src m = m.header.src

abbrev pub get_dst : IpcMessage → IpcDaemon
get_dst m = m.header.dst

abbrev pub get_cmd : IpcMessage → IpcCmd
get_cmd m = m.header.cmd

unfoldable pub set_payload : IpcMessage → List ℕ → IpcMessage
set_payload m bytes = record m { payload = bytes }

unfoldable pub is_request : IpcMessage → Bool
is_request m = has_flag m.header.flags IpcFlag.request

unfoldable pub is_response : IpcMessage → Bool
is_response m = has_flag m.header.flags IpcFlag.response

unfoldable pub is_error : IpcMessage → Bool
is_error m = has_flag m.header.flags IpcFlag.error

unfoldable pub is_broadcast : IpcMessage → Bool
is_broadcast m = has_flag m.header.flags IpcFlag.broadcast

-- `IpcWireHeader`, the packed structure of sixteen bytes.
pub record WireHeader : Type 0 where
  pub version : ℕ
  pub src : ℕ
  pub dst : ℕ
  pub flags : ℕ
  pub cmd : ℕ
  pub reserved : ℕ
  pub seq_no : ℕ
  pub payload_len : ℕ

unfoldable pub to_wire_header : IpcMessage → WireHeader
to_wire_header m = record {
  version = m.header.version;
  src = daemon_code m.header.src;
  dst = daemon_code m.header.dst;
  flags = m.header.flags;
  cmd = cmd_code m.header.cmd;
  reserved = 0;
  seq_no = m.header.seq_no;
  payload_len = length m.payload % 2 ^ 32;
}
