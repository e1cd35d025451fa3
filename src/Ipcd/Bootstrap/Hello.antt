-- ===== src/Ipcd/Bootstrap/Hello.antt =====
-- A ClientHello through the broker: the sender is bound, and the answer is queued for it.
use Prim.Native.String.{String}
use mathlib.Core.Path.{ap₂}
use nf_nms.Common.{
  ℕ, suc, ◌-◌, ◌≤◌, List, [], ◌∷◌, ◌≡◌, refl, ap, ◌∙◌, Option, none, some, Bool, true, false, arith,
  length,
}
use nf_nms.Ring
use nf_nms.Ipc.Protocol.Daemon.{IpcDaemon, daemon_eq}
use nf_nms.Ipc.Protocol.Cmd.{IpcCmd}
use nf_nms.Ipc.Protocol.Flag.{has_flag, to_flag}
use nf_nms.Ipc.Message.{build, IpcMessage, get_src, get_cmd}
use nf_nms.Ipc.Codec.{Endian, encode}
use nf_nms.Ipc.Codec.RoundTrip.{IsSendable}
use nf_nms.Ipc.Connection.{IpcConnection}
use nf_nms.Ipcd.Routes.{find_route}
use nf_nms.Ipcd.Broker.{Broker, receive_client_hello, find_connection, ingress, egress}
use nf_nms.Ipcd.Broker.Safety.{IsConsistent, AllGranted}
use nf_nms.Ipcd.Broker.Hello.{joined, ingress_hello, joined-IsConsistent}
use nf_nms.Ipcd.Broker.Delivery.{Delivered, IsAddressed, egress-Delivered}
use nf_nms.Ipcd.Broker.Queues.{egress-SameQueues}
use nf_nms.Ipcd.Bootstrap.{
  Listed, build_server_hello, response, Turn, idle, thrown, went, went_or_thrown, turn, run,
  execute, handle_event, handle_action,
}

-- A broker with nothing queued.
abbrev pub rested : Broker → Broker
rested b = record b { events = []; actions = [] }

module _ (e : Endian) (name : String → List ℕ) (version : List ℕ → Option ℕ)
    (dump : List Listed → List ℕ) where
  run_rested :
      (fuel : ℕ) (b : Broker)
      → b.events ≡ []
      → b.actions ≡ []
      → run e name version dump (suc fuel) b ≡ some b
  unfolding run turn
  run_rested fuel b p q =
      ap
        (λ (r : Turn). elim r as (λ _. Option Broker) [
          | idle ↦ some b
          | thrown ↦ none
          | went b' ↦ run e name version dump fuel b'
        ])
        (ap₂ (turn e name version dump b) p q)

  -- One ClientHello in the queue is answered with one ServerHello.
  execute_hello :
      (b : Broker) (m : IpcMessage)
      → execute e name version dump
          (record b { events = receive_client_hello m ∷ []; actions = [] })
        ≡ some (egress e (rested b) (build_server_hello e name version dump m))
  unfolding execute run turn went_or_thrown handle_event handle_action
  execute_hello b m =
      let r = egress e (rested b) (build_server_hello e name version dump m) in
      let same = egress-SameQueues e (rested b) (build_server_hello e name version dump m) in
      run_rested 0 r same.events same.actions

  answer-IsAddressed :
      (m : IpcMessage)
      → daemon_eq (get_src m) IpcDaemon.broadcast ≡ false
      → IsAddressed (build_server_hello e name version dump m)
  unfolding build_server_hello response build to_flag has_flag
  answer-IsAddressed m n = record {
    one = n;
    unflagged = refl;
    forwarded = (λ q. ground (arith, q), λ q. ground (arith, q), λ q. ground (arith, q));
  }

  -- A ClientHello that arrives on an open connection, from a daemon that is not bound, at a broker
  -- with nothing queued, is accepted, and after the loop of the service manager the daemon's
  -- address leads to that connection, the ServerHello for it is appended to the connection's
  -- transmit queue, and no other connection has changed. The answer can be sent and fits, and
  -- `epoll_ctl` succeeds.
  pub hello_answered :
      {b : Broker} (m : IpcMessage) (fd : ℕ) {conn : IpcConnection}
      → get_cmd m ≡ IpcCmd.client_hello
      → daemon_eq (get_src m) IpcDaemon.broadcast ≡ false
      → IsSendable m
      → IsSendable (build_server_hello e name version dump m)
      → IsConsistent b
      → AllGranted b.epoll
      → find_route b.table (get_src m) ≡ none
      → find_connection b.connections fd ≡ some conn
      → length (encode e (some (build_server_hello e name version dump m)))
        ≤ Ring.capacity conn.tx - conn.tx.size
      → let (accepted, b') = ingress e fd (rested b) (encode e (some m)) in
        let answer = encode e (some (build_server_hello e name version dump m)) in
        (accepted ≡ true)
        × ((b'' : Broker) × (execute e name version dump b' ≡ some b'')
            × (find_route b''.table (get_src m) ≡ some fd)
            × Delivered (joined (rested b) m fd) fd conn answer b'')
  unfolding build_server_hello response build
  hello_answered {b} m fd {conn} h n s r c g free f fits =
      let (taken, leads) = ingress_hello e (rested b) m fd s h free in
      let answer = build_server_hello e name version dump m in
      let a = answer-IsAddressed m n in
      let d =
        egress-Delivered e {b = joined (rested b) m fd} answer fd {conn = conn} a r
          (joined-IsConsistent {b = b} m fd c f) g leads f fits in
      let done =
        ap (λ (x : Bool × Broker). execute e name version dump x.1) taken
        ∙ execute_hello (joined b m fd) m in
      (
        ap (λ (x : Bool × Broker). x.0) taken,
        (
          egress e (joined (rested b) m fd) answer,
          done,
          ap (λ t. find_route t (get_src m)) d.routes ∙ leads,
          d,
        ),
      )
