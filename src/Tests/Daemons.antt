-- ===== src/Tests/Daemons.antt =====
-- probed joins a broker on descriptor 7, and a daemon that has run through the handshake.
use Prim.Native.String.{String}
use nf_nms.Common.{Option, ℕ, List, [], ◌∷◌, ◌≡◌, refl, arith, true, none, some, length}
use nf_nms.Ring.{ByteRingBuffer}
use nf_nms.Ipc.Protocol.Daemon.{IpcDaemon, daemon_code, daemon_of_code}
use nf_nms.Ipc.Message.{IpcMessage, build, to_wire_header}
use nf_nms.Ipc.Codec.{little, big, encode, decode, DecodeResult, header_bytes, host_to_net}
use nf_nms.Ipc.Connection.{IpcConnection}
use nf_nms.Ipcd.Routes.{find, find_route}
use nf_nms.Ipcd.Broker.{Broker, find_connection, ingress}
use nf_nms.Ipcd.Broker.Safety.{IsConsistent}
use nf_nms.Ipcd.Broker.Delivery.{Delivered}
use nf_nms.Ipcd.Broker.Hello.{joined}
use nf_nms.Ipcd.Bootstrap.{Listed, build_server_hello, response, execute}
use nf_nms.Ipcd.Bootstrap.Hello.{rested}
use nf_nms.Daemon.Bootstrap.{
  BootstrapService, wait_server_hello, wait_runtime_start, runtime_ready, action_posted,
  receive_server_hello, receive_runtime_start, start, Timing, schedule, handle_event,
  build_client_hello,
}
use nf_nms.Daemon.Bootstrap.Gate.{
  server_hello, runtime_start, Earned, started, polled, greeted, released, Run-Earned,
}
use nf_nms.Daemon.Bootstrap.Handshake.{IsService, handshake}

abbrev ring : ByteRingBuffer
ring = record {
  buffer =
      0 ∷ 0 ∷ 1 ∷ 9 ∷ 2 ∷ 7 ∷ 1 ∷ 0 ∷ 0 ∷ 0 ∷ 0 ∷ 2 ∷ 7 ∷ 1 ∷ 1 ∷ 0 ∷ 1 ∷ 0 ∷ 0 ∷ 0 ∷ 0 ∷ 0 ∷ 5 ∷ 0
      ∷ [];
  head = 22;
  tail = 1;
  size = 3;
}

abbrev probed_end : IpcConnection
probed_end = record { fd = 7; rx = ring; tx = ring }

abbrev broker : Broker
broker = record {
  connections = probed_end ∷ [];
  table =
      (IpcDaemon.probed, record { fd = none; ready = true; generation = 2; applied_version = 4 })
      ∷ [];
  events = [];
  actions = [];
  epoll = true ∷ [];
}

broker-IsConsistent : IsConsistent broker
unfolding find_route find
broker-IsConsistent = record { routed = λ d fd h. ground arith; ready = (omega arith, tt) }

abbrev name : String → List ℕ
name text = 105 ∷ []

abbrev ready_text : String → ℕ → List ℕ
ready_text text applied = applied ∷ []

abbrev version : List ℕ → Option ℕ
version bytes = some (length bytes)

abbrev dump : List Listed → List ℕ
dump daemons = length daemons ∷ []

probed-IsService : IsService IpcDaemon.probed
unfolding daemon_code daemon_of_code
probed-IsService = record { byte = omega arith; value = refl; one = refl }

abbrev hello : IpcMessage
hello = build_client_hello name ready_text IpcDaemon.probed

abbrev greeting : IpcMessage
greeting = build_server_hello little name version dump hello

length-greeting : length (encode little (some greeting)) ≡ 17
unfolding encode header_bytes host_to_net to_wire_header build_server_hello response
    build_client_hello build
length-greeting = refl

handshake_example :
    let (taken, b) = ingress little 7 (rested broker) (encode little (some hello)) in
    (taken ≡ true)
    × ((b' : Broker) × (execute little name version dump b ≡ some b')
        × (find_route b'.table IpcDaemon.probed ≡ some 7)
        × Delivered
            (joined (rested broker) hello 7)
            7
            probed_end
            (encode little (some greeting))
            b')
    × (decode big (some (encode little (some greeting))) ≡ (DecodeResult.ok, some greeting))
    × ((now : ℕ) (s : BootstrapService)
        → s.state ≡ wait_server_hello
        → ((handle_event now (receive_server_hello (some greeting)) s).0.state ≡ wait_runtime_start)
          × ((handle_event now (receive_server_hello (some greeting)) s).1
              ≡ action_posted runtime_ready ∷ []))
unfolding find_route find find_connection daemon_code
handshake_example =
    handshake little name version dump ready_text IpcDaemon.probed 7 big probed-IsService
      (omega arith) (omega arith) broker-IsConsistent (refl, tt) refl refl
      (omega (arith, length-greeting))

abbrev timing : Timing
timing = record {
  client_hello_interval = 1000;
  runtime_ready_interval = 1000;
  bootstrap_timeout = 10000;
}

abbrev waiting : BootstrapService
waiting = (schedule timing 5 (start 0).state (start 0)).0

Run-Earned_example :
    let s = (handle_event 6 (receive_server_hello (some hello)) waiting).0 in
    let s' = (handle_event 7 (receive_runtime_start (some hello)) s).0 in
    Earned s'.state (runtime_start hello ∷ server_hello hello ∷ [])
Run-Earned_example =
    let s = (handle_event 6 (receive_server_hello (some hello)) waiting).0 in
    Run-Earned (runtime_start hello ∷ server_hello hello ∷ [])
      (handle_event 7 (receive_runtime_start (some hello)) s).0
      (released 7 hello (greeted 6 hello (polled timing 5 (started 0))))
