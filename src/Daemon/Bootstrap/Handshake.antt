-- ===== src/Daemon/Bootstrap/Handshake.antt =====
-- A daemon and the broker together: from a daemon's ClientHello to its report of readiness.
use Prim.Native.String.{String}
use nf_nms.Common.{
  ℕ, ◌-◌, ◌≤◌, ◌<◌, List, [], ◌∷◌, ◌≡◌, refl, ap, Option, none, some, true, false, arith, length,
}
use nf_nms.Ring
use nf_nms.Ipc.Protocol.Daemon.{IpcDaemon, daemon_eq, daemon_to_str, daemon_code, daemon_of_code}
use nf_nms.Ipc.Protocol.Cmd.{cmd_code, cmd_of_code}
use nf_nms.Ipc.Protocol.Flag.{to_flag}
use nf_nms.Ipc.Message.{IpcMessage, build}
use nf_nms.Ipc.Codec.{Endian, DecodeResult, encode, decode, max_frame_size, header_len}
use nf_nms.Ipc.Codec.RoundTrip.{IsSendable, decode-encode}
use nf_nms.Ipc.Connection.{IpcConnection}
use nf_nms.Ipcd.Routes.{find_route}
use nf_nms.Ipcd.Broker.{Broker, find_connection, ingress}
use nf_nms.Ipcd.Broker.Safety.{IsConsistent, AllGranted}
use nf_nms.Ipcd.Broker.Hello.{joined}
use nf_nms.Ipcd.Broker.Delivery.{Delivered}
use nf_nms.Ipcd.Bootstrap.{Listed, build_server_hello, response, execute}
use nf_nms.Ipcd.Bootstrap.Hello.{rested, hello_answered}
use nf_nms.Daemon.Bootstrap.{
  BootstrapService, wait_server_hello, wait_runtime_start, receive_server_hello, runtime_ready,
  action_posted, build_client_hello, on_server_hello, handle_event,
}

-- A daemon with an address of its own.
pub record IsService (self : IpcDaemon) : Type 0 where
  pub byte : daemon_code self < 256
  pub value : daemon_of_code (daemon_code self) ≡ self
  pub one : daemon_eq self IpcDaemon.broadcast ≡ false

module _ (e : Endian) (name : String → List ℕ) (version : List ℕ → Option ℕ)
    (dump : List Listed → List ℕ) (ready_text : String → ℕ → List ℕ) where
  hello-IsSendable :
      (self : IpcDaemon)
      → IsService self
      → length (name (daemon_to_str self)) ≤ max_frame_size - header_len
      → IsSendable (build_client_hello name ready_text self)
  unfolding build_client_hello build daemon_code daemon_of_code cmd_code cmd_of_code to_flag
  hello-IsSendable self s l = record {
    version_this = refl;
    src_byte = s.byte;
    src_value = s.value;
    dst_byte = omega arith;
    dst_value = refl;
    flags_byte = omega arith;
    cmd_word = omega arith;
    cmd_value = refl;
    seq_no_word = omega arith;
    payload_fits = l;
  }

  answer-IsSendable :
      (self : IpcDaemon)
      → IsService self
      → length (name (daemon_to_str IpcDaemon.ipcd)) ≤ max_frame_size - header_len
      → IsSendable
          (build_server_hello e name version dump (build_client_hello name ready_text self))
  unfolding build_server_hello response build_client_hello build daemon_code daemon_of_code cmd_code
      cmd_of_code to_flag
  answer-IsSendable self s l = record {
    version_this = refl;
    src_byte = omega arith;
    src_value = refl;
    dst_byte = s.byte;
    dst_value = s.value;
    flags_byte = omega arith;
    cmd_word = omega arith;
    cmd_value = refl;
    seq_no_word = omega arith;
    payload_fits = l;
  }

  greets :
      (now : ℕ) (m : IpcMessage) (s : BootstrapService)
      → s.state ≡ wait_server_hello
      → ((handle_event now (receive_server_hello (some m)) s).0.state ≡ wait_runtime_start)
        × ((handle_event now (receive_server_hello (some m)) s).1
            ≡ action_posted runtime_ready ∷ [])
  unfolding handle_event on_server_hello
  greets now m s q =
      (ap (λ k. (on_server_hello now k s).0.state) q, ap (λ k. (on_server_hello now k s).1) q)

  -- The ClientHello of a daemon that is not bound, on an open connection of a broker with nothing
  -- queued, is accepted; the daemon's address then leads to the connection, and the broker's
  -- ServerHello is appended to the connection's transmit queue, with no other connection changed.
  -- A host of any byte order decodes the answer to a message that moves a daemon that waits for it
  -- on to waiting for its start, and makes it post its readiness. The names and the answer fit, and
  -- `epoll_ctl` succeeds.
  pub handshake :
      {b : Broker} (self : IpcDaemon) (fd : ℕ) {conn : IpcConnection} (host : Endian)
      → IsService self
      → length (name (daemon_to_str self)) ≤ max_frame_size - header_len
      → length (name (daemon_to_str IpcDaemon.ipcd)) ≤ max_frame_size - header_len
      → IsConsistent b
      → AllGranted b.epoll
      → find_route b.table self ≡ none
      → find_connection b.connections fd ≡ some conn
      → length (
          encode e (
            some
              (build_server_hello e name version dump (build_client_hello name ready_text self))))
        ≤ Ring.capacity conn.tx - conn.tx.size
      → let hello = build_client_hello name ready_text self in
        let answer = build_server_hello e name version dump hello in
        let (accepted, b') = ingress e fd (rested b) (encode e (some hello)) in
        (accepted ≡ true)
        × ((b'' : Broker) × (execute e name version dump b' ≡ some b'')
            × (find_route b''.table self ≡ some fd)
            × Delivered (joined (rested b) hello fd) fd conn (encode e (some answer)) b'')
        × (decode host (some (encode e (some answer))) ≡ (DecodeResult.ok, some answer))
        × ((now : ℕ) (s : BootstrapService)
            → s.state ≡ wait_server_hello
            → ((handle_event now (receive_server_hello (some answer)) s).0.state
                ≡ wait_runtime_start)
              × ((handle_event now (receive_server_hello (some answer)) s).1
                  ≡ action_posted runtime_ready ∷ []))
  unfolding build_client_hello build
  handshake {b} self fd {conn} host v l k c g free f fits =
      let hello = build_client_hello name ready_text self in
      let answer = build_server_hello e name version dump hello in
      let s = answer-IsSendable self v k in
      let (taken, answered) =
        hello_answered e name version dump {b = b} hello fd {conn = conn} refl v.one
          (hello-IsSendable self v l) s c g free f fits in
      (taken, answered, decode-encode e host s, λ now d q. greets now answer d q)
