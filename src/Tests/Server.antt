-- ===== src/Tests/Server.antt =====
-- The broker with two connections: authd on descriptor 5 and mgmtd on 7.
use Prim.Native.String.{String}
use nf_nms.Common.{Option, ℕ, List, [], ◌∷◌, ◌≡◌, refl, arith, true, false, some, length}
use nf_nms.Ring.{ByteRingBuffer}
use nf_nms.Ipc.Protocol.Daemon.{IpcDaemon, daemon_code, daemon_of_code}
use nf_nms.Ipc.Protocol.Cmd.{IpcCmd, cmd_code, cmd_of_code}
use nf_nms.Ipc.Protocol.Flag.{has_flag, to_flag}
use nf_nms.Ipc.Message.{IpcMessage, to_wire_header}
use nf_nms.Ipc.Codec.{little, encode, header_bytes, host_to_net}
use nf_nms.Ipc.Codec.RoundTrip.{IsSendable, decode-encode}
use nf_nms.Ipc.Connection.{IpcConnection, moved, again}
use nf_nms.Ipcd.Routes.{RuntimeTable, find, find_route}
use nf_nms.Ipcd.Broker.{
  Broker, ingress, find_connection, receive_client_hello, receive_sync_request,
}
use nf_nms.Ipcd.Bootstrap.{Listed, execute}
use nf_nms.Ipcd.Bootstrap.Execute.{Ended, any_unreadable, execute_idle}
use nf_nms.Ipcd.Broker.Safety.{IsConsistent}
use nf_nms.Ipcd.Broker.Delivery.{IsAddressed, Delivered, ingress_spoofed, ingress_relays}
use nf_nms.Ipcd.Server.{IpcConfig, connection, handle_event}
use nf_nms.Ipcd.Server.Open.{handle_event-IsConsistent}

abbrev ring : ByteRingBuffer
ring = record {
  buffer =
      0 ∷ 0 ∷ 1 ∷ 9 ∷ 2 ∷ 7 ∷ 1 ∷ 0 ∷ 0 ∷ 0 ∷ 0 ∷ 2 ∷ 7 ∷ 1 ∷ 1 ∷ 0 ∷ 1 ∷ 0 ∷ 0 ∷ 0 ∷ 0 ∷ 0 ∷ 5 ∷ 0
      ∷ [];
  head = 22;
  tail = 1;
  size = 3;
}

abbrev authd_end : IpcConnection
authd_end = record { fd = 5; rx = ring; tx = ring }

abbrev mgmtd_end : IpcConnection
mgmtd_end = record { fd = 7; rx = ring; tx = ring }

abbrev routes : RuntimeTable
routes =
    (IpcDaemon.authd, record { fd = some 5; ready = true; generation = 1; applied_version = 12 })
    ∷ (IpcDaemon.mgmtd, record { fd = some 7; ready = false; generation = 2; applied_version = 0 })
    ∷ []

abbrev broker : Broker
broker = record {
  connections = authd_end ∷ mgmtd_end ∷ [];
  table = routes;
  events = [];
  actions = [];
  epoll = true ∷ [];
}

broker-IsConsistent : IsConsistent broker
unfolding find_route find
broker-IsConsistent = record {
  routed = λ d fd h. ground arith;
  ready = (omega arith, (omega arith, tt));
}

abbrev answered : IpcMessage
answered = record {
  header = record {
    version = 2;
    src = IpcDaemon.authd;
    dst = IpcDaemon.mgmtd;
    flags = 2;
    cmd = IpcCmd.auth_login_response;
    seq_no = 5;
  };
  payload = 9 ∷ [];
}

answered-IsSendable : IsSendable answered
unfolding daemon_code daemon_of_code cmd_code cmd_of_code
answered-IsSendable = record {
  version_this = refl;
  src_byte = omega arith;
  src_value = refl;
  dst_byte = omega arith;
  dst_value = refl;
  flags_byte = omega arith;
  cmd_word = omega arith;
  cmd_value = refl;
  seq_no_word = omega arith;
  payload_fits = omega arith;
}

answered-IsAddressed : IsAddressed answered
unfolding daemon_code has_flag to_flag
answered-IsAddressed = record {
  one = refl;
  unflagged = refl;
  forwarded = (λ e. cc (e), λ e. cc (e), λ e. cc (e));
}

length-answered : length (encode little (some answered)) ≡ 17
unfolding encode header_bytes host_to_net to_wire_header
length-answered = refl

ingress_spoofed_example : ingress little 7 broker (encode little (some answered)) ≡ (false, broker)
unfolding find_route find daemon_code
ingress_spoofed_example =
    ingress_spoofed little broker 7 5 (encode little (some answered)) answered
      (decode-encode little little answered-IsSendable) refl (omega arith)

ingress_relays_example :
    let (taken, b) = ingress little 5 broker (encode little (some answered)) in
    (taken ≡ true) × Delivered broker 7 mgmtd_end (encode little (some answered)) b
unfolding find_route find daemon_code find_connection
ingress_relays_example =
    ingress_relays little answered 5 7 answered-IsAddressed answered-IsSendable broker-IsConsistent
      (refl, tt) refl refl refl (omega (arith, length-answered))

abbrev limits : IpcConfig
limits = record { max_connections = 2; rx_buffer_size = 4096; tx_buffer_size = 4096 }

handle_event-IsConsistent_example : IsConsistent (
    handle_event little limits
      (connection 5 (moved 2 ∷ again ∷ []) (1 ∷ 2 ∷ []) [] true)
      false
      true
      true
      broker)
handle_event-IsConsistent_example =
    handle_event-IsConsistent little limits
      (connection 5 (moved 2 ∷ again ∷ []) (1 ∷ 2 ∷ []) [] true) false true true
      (record { rx_bound = omega arith; tx_bound = omega arith }) broker-IsConsistent (refl, tt)

-- A ClientHello and a SyncRequest of authd wait.
abbrev asked : Broker
asked = record broker {
  events = receive_client_hello answered ∷ receive_sync_request answered ∷ [];
}

abbrev name : String → List ℕ
name s = 105 ∷ 112 ∷ []

abbrev version : List ℕ → Option ℕ
version bytes = some (length bytes)

abbrev dump : List Listed → List ℕ
dump ds = 123 ∷ length ds ∷ 125 ∷ []

execute_idle_example :
    Ended
      (any_unreadable little name version dump asked.events)
      (execute little name version dump asked)
execute_idle_example = execute_idle little name version dump asked
