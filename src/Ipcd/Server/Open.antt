-- ===== src/Ipcd/Server/Open.antt =====
-- The invariants of the server over the events of epoll.
use nf_nms.Common.{
  ℕ, suc, ◌≤◌, ◌<◌, ◌^◌, List, [], ◌∷◌, ◌≡◌, ap, sym, Bool, true, arith, if◌then◌else◌, inl, inr,
  Option-cases, if_cases, length, subst, leb, max, not_leb→lt,
}
use nf_nms.Ipc.Codec.{Endian}
use nf_nms.Ipc.Connection.{IpcConnection, Answer, connect}
use nf_nms.Ipc.Connection.Stream.{IsReady, connect-IsReady}
use nf_nms.Ring.{ByteRingBuffer}
use nf_nms.Ring.Inv.{IsValid}
use nf_nms.Ipc.Handler
use nf_nms.Ipc.Handler.Keep.{handle_recv_keep, handle_send-IsReady}
use nf_nms.Ipcd.Broker.{Broker, find_connection, epoll_ctl, ingress}
use nf_nms.Ipcd.Broker.Table.{
  epoll_ctl-connections, has, AllReady, find_connection-has, find_connection-IsReady,
}
use nf_nms.Ipcd.Broker.Safety.{
  IsConsistent, AllGranted, Kept, epoll_ctl_granted, unchanged, Kept-trans,
  close_connection-IsConsistent, close_connection_granted, put-Kept, ingress-Kept,
}
use nf_nms.Ipcd.Server.{
  IpcConfig, Accepted, accepted, interrupted, stopped, emplace, added, handle_accept, store_rx,
  received, handle_recv, sent, handle_send, Source, wakeup, listener, connection, handle_event,
}

-- The buffer sizes of the configuration fit a `size_t` with room to spare.
pub record IsSized (cfg : IpcConfig) : Type 0 where
  pub rx_bound : cfg.rx_buffer_size < 2 ^ 62
  pub tx_bound : cfg.tx_buffer_size < 2 ^ 62

emplace-AllReady :
    (cs : List IpcConnection) {c : IpcConnection}
    → AllReady cs
    → IsReady c
    → AllReady (emplace cs c)
unfolding emplace
emplace-AllReady cs {c} all r = elim (Option-cases (find_connection cs c.fd)) [
  | inl e ↦ rw (e, emplace) (r, all)
  | inr (d, e) ↦ rw (e, emplace) all
]

has-emplace :
    (cs : List IpcConnection) (c : IpcConnection) (k : ℕ)
    → has cs k ≡ true
    → has (emplace cs c) k ≡ true
unfolding emplace
has-emplace cs c k h = elim (Option-cases (find_connection cs c.fd)) [
  | inl e ↦ rw (e, emplace) (ground (arith))
  | inr (d, e) ↦ rw (e, emplace) h
]

length-emplace :
    (cs : List IpcConnection) (c : IpcConnection) → length (emplace cs c) ≤ suc (length cs)
unfolding emplace
length-emplace cs c = elim (Option-cases (find_connection cs c.fd)) [
  | inl e ↦ rw (e, emplace) (omega arith)
  | inr (d, e) ↦ rw (e, emplace) (omega arith)
]

added-Kept :
    (cfg : IpcConfig) (fd : ℕ) {b : Broker}
    → IsSized cfg
    → IsConsistent b
    → AllGranted b.epoll
    → Kept b (added cfg fd (epoll_ctl b))
unfolding added
added-Kept cfg fd {b} z c g =
    let (later, e, ok) = epoll_ctl_granted b g in
    subst (λ r. Kept b (added cfg fd r)) (sym e)
      (record {
        consistent = record {
          routed = λ d k h. has-emplace b.connections _ k (c.routed d k h);
          ready =
              emplace-AllReady b.connections c.ready
                (connect-IsReady fd _ _ z.rx_bound z.tx_bound).0;
        };
        granted = ok;
        held = λ k h. has-emplace b.connections _ k h;
      })

handle_accept-Kept :
    (cfg : IpcConfig) (answers : List Accepted) {b : Broker}
    → IsSized cfg
    → IsConsistent b
    → AllGranted b.epoll
    → Kept b (handle_accept cfg answers b)
unfolding handle_accept
handle_accept-Kept cfg [] z c g = unchanged c g
handle_accept-Kept cfg (interrupted ∷ answers) z c g = handle_accept-Kept cfg answers z c g
handle_accept-Kept cfg (stopped ∷ answers) z c g = unchanged c g
handle_accept-Kept cfg (accepted fd ∷ answers) {b} z c g =
    if_cases (Kept b) (leb cfg.max_connections (length b.connections))
      (λ _. handle_accept-Kept cfg answers z c g)
      (λ _.
        let k = added-Kept cfg fd z c g in
        Kept-trans k (handle_accept-Kept cfg answers z k.consistent k.granted))

added_cap :
    (cfg : IpcConfig) (fd : ℕ) (b b' : Broker) (ok : Bool)
    → b'.connections ≡ b.connections
    → length (added cfg fd (ok, b')).connections ≤ suc (length b.connections)
unfolding added
added_cap cfg fd b b' ok e =
    if_cases (λ (r : Broker). length r.connections ≤ suc (length b.connections)) ok
      (λ _. omega (
        arith,
        length-emplace b'.connections (connect fd cfg.rx_buffer_size cfg.tx_buffer_size),
        ap length e,
      ))
      (λ _. omega (arith, ap length e))

-- Accepting never takes the number of connections above the configured limit, whatever `accept`
-- and `epoll_ctl` answer: it stays below the limit or below what it was.
pub handle_accept_cap :
    (cfg : IpcConfig) (answers : List Accepted) (b : Broker)
    → length (handle_accept cfg answers b).connections
      ≤ max cfg.max_connections (length b.connections)
unfolding handle_accept
handle_accept_cap cfg [] b = omega arith
handle_accept_cap cfg (interrupted ∷ answers) b = handle_accept_cap cfg answers b
handle_accept_cap cfg (stopped ∷ answers) b = omega arith
handle_accept_cap cfg (accepted fd ∷ answers) b =
    if_cases (λ (r : Broker). length r.connections ≤ max cfg.max_connections (length b.connections))
      (leb cfg.max_connections (length b.connections)) (λ _. handle_accept_cap cfg answers b)
      (λ h. omega (
        arith,
        handle_accept_cap cfg answers (added cfg fd (epoll_ctl b)),
        added_cap cfg fd b (epoll_ctl b).1 (epoll_ctl b).0 (epoll_ctl-connections b),
        not_leb→lt _ _ h,
      ))

store_rx-Kept :
    {b : Broker} (fd : ℕ) (rx : ByteRingBuffer)
    → IsConsistent b
    → AllGranted b.epoll
    → IsValid rx
    → Kept b (store_rx b fd rx)
unfolding store_rx
store_rx-Kept {b} fd rx c g v = elim (Option-cases (find_connection b.connections fd)) [
  | inl e ↦ rw (e, store_rx) (unchanged c g)
  | inr (conn, e) ↦
      rw (e, store_rx)
        (put-Kept c g (record {
          rx_valid = v;
          tx_valid = (find_connection-IsReady b.connections fd c.ready e).tx_valid;
        }))
]

-- An event on one descriptor leaves every route leading to an open connection.
record Safe (b : Broker) : Type 0 where
  consistent : IsConsistent b
  granted : AllGranted b.epoll

received-Safe :
    (fd : ℕ) (keep : Bool) {conn : IpcConnection} (left : List ℕ) {b : Broker}
    → IsReady conn
    → IsConsistent b
    → AllGranted b.epoll
    → Safe (received fd (keep, conn, left, b))
unfolding received
received-Safe fd keep {conn} left {b} r c g =
    let k = store_rx-Kept fd conn.rx c g r.rx_valid in
    if_cases Safe keep (λ _. record { consistent = k.consistent; granted = k.granted })
      (λ _. record {
        consistent = close_connection-IsConsistent fd k.consistent;
        granted = close_connection_granted _ fd k.granted;
      })

module _ (e : Endian) where
  handle_recv-Safe :
      (fd : ℕ) (answers : List Answer) (wire : List ℕ) {b : Broker}
      → IsConsistent b
      → AllGranted b.epoll
      → Safe (handle_recv e fd answers wire b)
  unfolding handle_recv
  handle_recv-Safe fd answers wire {b} c g =
      elim (Option-cases (find_connection b.connections fd)) [
        | inl q ↦ rw (q, handle_recv) (record { consistent = c; granted = g })
        | inr (conn, q) ↦
            let r = Handler.handle_recv e (ingress e fd) answers conn wire b in
            let open_fd = find_connection-has b.connections fd conn q in
            let (ready, k) =
              handle_recv_keep e (ingress e fd) (Kept b)
                (λ s bytes k.
                  Kept-trans k (ingress-Kept e fd bytes k.consistent k.granted (k.held fd open_fd)))
                answers wire b (find_connection-IsReady b.connections fd c.ready q)
                (unchanged c g) in
            rw (q, handle_recv) (received-Safe fd r.0 r.2 ready k.consistent k.granted)
      ]

handle_send-Safe :
    (fd : ℕ) (answers : List Answer) (registered : Bool) {b : Broker}
    → IsConsistent b
    → AllGranted b.epoll
    → Safe (handle_send fd answers registered b)
unfolding handle_send sent
handle_send-Safe fd answers registered {b} c g =
    elim (Option-cases (find_connection b.connections fd)) [
      | inl q ↦ rw (q, handle_send) (record { consistent = c; granted = g })
      | inr (conn, q) ↦
          let r = Handler.handle_send registered answers conn [] in
          let k = put-Kept c g (
            handle_send-IsReady registered answers []
              (find_connection-IsReady b.connections fd c.ready q)) in
          rw (q, handle_send)
            (if_cases Safe r.0 (λ _. record { consistent = k.consistent; granted = k.granted })
              (λ _. record {
                consistent = close_connection-IsConsistent fd k.consistent;
                granted = close_connection_granted _ fd k.granted;
              }))
    ]

module _ (e : Endian) (cfg : IpcConfig) where
  connection-Safe :
      (fd : ℕ) (ins : List Answer) (wire : List ℕ) (outs : List Answer)
      (registered is_close is_recv is_send : Bool) {b : Broker}
      → IsConsistent b
      → AllGranted b.epoll
      → Safe
          (handle_event e cfg (connection fd ins wire outs registered) is_close is_recv is_send b)
  unfolding handle_event
  connection-Safe fd ins wire outs registered is_close is_recv is_send {b} c g =
      elim (Option-cases (find_connection b.connections fd)) [
        | inl q ↦ rw (q, handle_event) (record { consistent = c; granted = g })
        | inr (conn, q) ↦
            let after : Safe (if is_recv then handle_recv e fd ins wire b else b) =
              if_cases Safe is_recv (λ _. handle_recv-Safe e fd ins wire c g)
                (λ _. record { consistent = c; granted = g }) in
            rw (q, handle_event)
              (if_cases Safe is_close
                (λ _. record {
                  consistent = close_connection-IsConsistent fd c;
                  granted = close_connection_granted _ fd g;
                })
                (λ _.
                  if_cases Safe is_send
                    (λ _. handle_send-Safe fd outs registered after.consistent after.granted)
                    (λ _. after)))
      ]

  -- After any event of epoll, whatever is accepted, received or sent, and whatever the calls on the
  -- socket answer, every route of the runtime table leads to an open connection, and the rings of
  -- every connection are valid. The state before is such a state, the buffer sizes configured are
  -- below 2 ^ 62, and the calls of `epoll_ctl` that adding a connection and queueing a frame make
  -- succeed.
  pub handle_event-IsConsistent :
      (source : Source) (is_close is_recv is_send : Bool) {b : Broker}
      → IsSized cfg
      → IsConsistent b
      → AllGranted b.epoll
      → IsConsistent (handle_event e cfg source is_close is_recv is_send b)
  unfolding handle_event
  handle_event-IsConsistent wakeup is_close is_recv is_send z c g = c
  handle_event-IsConsistent (listener answers) is_close is_recv is_send z c g =
      if_cases IsConsistent is_close (λ _. c)
        (λ _.
          if_cases IsConsistent is_recv (λ _. (handle_accept-Kept cfg answers z c g).consistent)
            (λ _. c))
  handle_event-IsConsistent (connection fd ins wire outs r) is_close is_recv is_send z c g =
      (connection-Safe fd ins wire outs r is_close is_recv is_send c g).consistent
