-- ===== src/Ipcd/Broker/Safety.antt =====
-- Every route leads to an open connection, whatever is received and sent, as long as `epoll_ctl`
-- does not fail.
use nf_nms.Common.{
  ℕ, List, [], ◌∷◌, ◌≡◌, refl, ap, ◌∙◌, sym, Option, none, some, Bool, true, false, ◌==◌, inl, inr,
  Option-cases, if_cases, length, ◌||◌, subst,
}
use nf_nms.Ipc.Protocol.Daemon.{IpcDaemon, daemon_eq}
use nf_nms.Ipc.Protocol.Cmd.{IpcCmd}
use nf_nms.Ipc.Protocol.Flag.{IpcFlag, has_flag}
use nf_nms.Ipc.Message.{IpcMessage, get_src, get_dst, get_cmd}
use nf_nms.Ipc.Codec.{Endian, DecodeResult, encode, decode}
use nf_nms.Ipc.Connection.{IpcConnection, write}
use nf_nms.Ipc.Connection.Stream.{IsReady, write_all_or_none}
use nf_nms.Ipcd.Routes.{RuntimeTable, find_route, bind_route}
use nf_nms.Ipcd.Routes.Binding.{find_route-kept, find_route-bind_route}
use nf_nms.Ipcd.Broker.{
  Broker, BootstrapEvent, find_connection, put_connection, answer, epoll_ctl, close_connection,
  armed, queued, enqueue_frame, send_frame, unicast, is_skipped, broadcast_loop, broadcast, egress,
  rx_route, bound, decoded, ingress,
}
use nf_nms.Ipcd.Broker.Table.{
  has, AllReady, find_connection-IsReady, has-put_connection, put_connection-AllReady, has-erase,
  erase-AllReady,
}

pub record IsConsistent (b : Broker) : Type 0 where
  pub routed :
      (d : IpcDaemon) (fd : ℕ) → find_route b.table d ≡ some fd → has b.connections fd ≡ true
  pub ready : AllReady b.connections

-- Answers of `epoll_ctl` that are all successes.
abbrev pub AllGranted : List Bool → Type 0
AllGranted [] = Unit {0}
AllGranted (ok ∷ later) = (ok ≡ true) × AllGranted later

-- What an operation leaves as it was: routes lead to open connections, and no connection is lost.
pub record Kept (b b' : Broker) : Type 0 where
  pub consistent : IsConsistent b'
  pub granted : AllGranted b'.epoll
  pub held : (fd : ℕ) → has b.connections fd ≡ true → has b'.connections fd ≡ true

pub unchanged : {b : Broker} → IsConsistent b → AllGranted b.epoll → Kept b b
unchanged c g = record { consistent = c; granted = g; held = λ fd h. h }

pub Kept-trans : {a b c : Broker} → Kept a b → Kept b c → Kept a c
Kept-trans k l = record {
  consistent = l.consistent;
  granted = l.granted;
  held = λ fd h. l.held fd (k.held fd h);
}

pub close_connection-IsConsistent :
    {b : Broker} (fd : ℕ) → IsConsistent b → IsConsistent (close_connection b fd)
unfolding close_connection
close_connection-IsConsistent {b} fd c = record {
  routed = λ d k h.
      let (before, other) = find_route-kept b.table fd k d h in
      has-erase b.connections fd k other ∙ c.routed d k before;
  ready = erase-AllReady b.connections fd c.ready;
}

pub close_connection_granted :
    (b : Broker) (fd : ℕ) → AllGranted b.epoll → AllGranted (close_connection b fd).epoll
unfolding close_connection
close_connection_granted b fd g = g

-- A connection written back in the place of one of the same descriptor.
pub put-Kept :
    {b : Broker} {conn : IpcConnection}
    → IsConsistent b
    → AllGranted b.epoll
    → IsReady conn
    → Kept b (record b { connections = put_connection b.connections conn })
put-Kept {b} {conn} c g r = record {
  consistent = record {
    routed = λ d k h. has-put_connection b.connections conn k ∙ c.routed d k h;
    ready = put_connection-AllReady b.connections c.ready r;
  };
  granted = g;
  held = λ fd h. has-put_connection b.connections conn fd ∙ h;
}

-- Queues are not read by the invariant.
posted :
    {b : Broker} {q : List BootstrapEvent}
    → IsConsistent b
    → AllGranted b.epoll
    → Kept b (record b { events = q })
posted c g = record {
  consistent = record { routed = c.routed; ready = c.ready };
  granted = g;
  held = λ k h. h;
}

answer_granted :
    (b : Broker) (es : List Bool)
    → AllGranted es
    → AllGranted b.epoll
    → (later : List Bool) × (answer b es ≡ (true, record b { epoll = later })) × AllGranted later
unfolding answer
answer_granted b [] ok g = (b.epoll, refl, g)
answer_granted b (x ∷ es) ok g = (es, ap (λ y. (y, record b { epoll = es })) ok.0, ok.1)

pub epoll_ctl_granted :
    (b : Broker)
    → AllGranted b.epoll
    → (later : List Bool) × (epoll_ctl b ≡ (true, record b { epoll = later })) × AllGranted later
unfolding epoll_ctl
epoll_ctl_granted b g = answer_granted b b.epoll g g

-- Answers are not read by the invariant.
pub redrawn :
    {b : Broker} {later : List Bool}
    → IsConsistent b
    → AllGranted later
    → Kept b (record b { epoll = later })
redrawn c ok = record {
  consistent = record { routed = c.routed; ready = c.ready };
  granted = ok;
  held = λ k h. h;
}

armed-Kept :
    {b : Broker} (fd : ℕ) → IsConsistent b → AllGranted b.epoll → Kept b (armed fd (epoll_ctl b)).1
unfolding armed
armed-Kept {b} fd c g =
    let (later, e, ok) = epoll_ctl_granted b g in
    subst (λ r. Kept b (armed fd r).1) (sym e) (redrawn c ok)

queued-Kept :
    {b : Broker} (fd : ℕ) (r : Bool × IpcConnection)
    → IsConsistent b
    → AllGranted b.epoll
    → IsReady r.1
    → Kept b (queued b fd r).1
unfolding queued
queued-Kept fd (true, conn) c g r =
    let k = put-Kept c g r in Kept-trans k (armed-Kept fd k.consistent g)
queued-Kept fd (false, conn) c g r = unchanged c g

write-IsReady :
    {conn : IpcConnection} (bytes : List ℕ) → IsReady conn → IsReady (write conn bytes).1
write-IsReady {conn} bytes r = elim (write_all_or_none {conn = conn} bytes r) [
  | inl w ↦ w.3
  | inr w ↦ subst IsReady (sym w.2) r
]

pub enqueue_frame-Kept :
    {b : Broker} (fd : ℕ) (frame : List ℕ)
    → IsConsistent b
    → AllGranted b.epoll
    → Kept b (enqueue_frame b fd frame).1
unfolding enqueue_frame
enqueue_frame-Kept {b} fd frame c g = elim (Option-cases (find_connection b.connections fd)) [
  | inl e ↦ rw (e, enqueue_frame) (unchanged c g)
  | inr (conn, e) ↦
      rw (e, enqueue_frame)
        (if_cases (λ (r : Bool × Broker). Kept b r.1) (length frame == 0) (λ _. unchanged c g)
          (λ _.
            queued-Kept fd (write conn frame) c g
              (write-IsReady frame (find_connection-IsReady b.connections fd c.ready e))))
]

module _ (e : Endian) where
  pub send_frame-Kept :
      {b : Broker} (fd : ℕ) (m : IpcMessage)
      → IsConsistent b
      → AllGranted b.epoll
      → Kept b (send_frame e b fd m).1
  unfolding send_frame
  send_frame-Kept {b} fd m c g =
      if_cases (λ (r : Bool × Broker). Kept b r.1) (length (encode e (some m)) == 0)
        (λ _. unchanged c g) (λ _. enqueue_frame-Kept fd (encode e (some m)) c g)

  pub unicast-Kept :
      {b : Broker} (m : IpcMessage) → IsConsistent b → AllGranted b.epoll → Kept b (unicast e b m)
  unfolding unicast
  unicast-Kept {b} m c g = elim (Option-cases (find_route b.table (get_dst m))) [
    | inl r ↦ rw (r, unicast) (unchanged c g)
    | inr (fd, r) ↦ rw (r, unicast) (send_frame-Kept fd m c g)
  ]

pub broadcast_loop-Kept :
    (frame : List ℕ) (src : IpcDaemon) (keys : RuntimeTable) {b : Broker}
    → IsConsistent b
    → AllGranted b.epoll
    → Kept b (broadcast_loop frame src b keys)
unfolding broadcast_loop
broadcast_loop-Kept frame src [] c g = unchanged c g
broadcast_loop-Kept frame src ((d, _) ∷ keys) {b} c g = elim (Option-cases (find_route b.table d)) [
  | inl r ↦ rw (r, broadcast_loop) (broadcast_loop-Kept frame src keys c g)
  | inr (fd, r) ↦
      rw (r, broadcast_loop)
        (if_cases (Kept b) (is_skipped src d) (λ _. broadcast_loop-Kept frame src keys c g)
          (λ _.
            let k = enqueue_frame-Kept fd frame c g in
            Kept-trans k (broadcast_loop-Kept frame src keys k.consistent k.granted)))
]

module _ (e : Endian) where
  pub egress-Kept :
      {b : Broker} (m : IpcMessage) → IsConsistent b → AllGranted b.epoll → Kept b (egress e b m)
  unfolding egress broadcast
  egress-Kept {b} m c g =
      if_cases (Kept b)
        (daemon_eq (get_dst m) IpcDaemon.broadcast || has_flag m.header.flags IpcFlag.broadcast)
        (λ _.
          if_cases (Kept b) (length (encode e (some m)) == 0) (λ _. unchanged c g)
            (λ _. broadcast_loop-Kept (encode e (some m)) (get_src m) b.table c g))
        (λ _. unicast-Kept e m c g)

  rx_route-Kept :
      {b : Broker} (m : IpcMessage) (cmd : IpcCmd)
      → IsConsistent b
      → AllGranted b.epoll
      → Kept b (rx_route e b m cmd)
  unfolding rx_route
  rx_route-Kept m IpcCmd.client_hello c g = posted c g
  rx_route-Kept m IpcCmd.sync_request c g = posted c g
  rx_route-Kept m IpcCmd.runtime_ready c g = posted c g
  rx_route-Kept m _ c g = egress-Kept m c g

  -- Binding the sender to an open connection.
  bind_route-IsConsistent :
      {b : Broker} (d : IpcDaemon) (fd : ℕ)
      → IsConsistent b
      → has b.connections fd ≡ true
      → IsConsistent (record b { table = (bind_route b.table d fd).1 })
  bind_route-IsConsistent {b} d fd c h = record {
    routed = λ k to r. elim (find_route-bind_route b.table d fd k to r) [
      | inl before ↦ c.routed k to before
      | inr same ↦ ap (has b.connections) same ∙ h
    ];
    ready = c.ready;
  }

  decoded-Kept :
      {b : Broker} (fd : ℕ) (r : DecodeResult × Option IpcMessage)
      → IsConsistent b
      → AllGranted b.epoll
      → has b.connections fd ≡ true
      → Kept b (decoded e b fd r).1
  unfolding decoded bound
  decoded-Kept {b} fd (DecodeResult.ok, some m) c g h =
      if_cases (λ (r : Bool × Broker). Kept b r.1) (bind_route b.table (get_src m) fd).0
        (λ _.
          let k = rx_route-Kept m (get_cmd m) (bind_route-IsConsistent (get_src m) fd c h) g in
          record { consistent = k.consistent; granted = k.granted; held = k.held })
        (λ _. unchanged c g)
  decoded-Kept fd (DecodeResult.ok, none) c g h = unchanged c g
  decoded-Kept fd (DecodeResult.need_more_data, _) c g h = unchanged c g
  decoded-Kept fd (DecodeResult.invalid_frame, _) c g h = unchanged c g
  decoded-Kept fd (DecodeResult.too_large, _) c g h = unchanged c g

  -- A frame, whatever its bytes, leaves every route leading to an open connection, and closes none.
  pub ingress-Kept :
      {b : Broker} (fd : ℕ) (frame : List ℕ)
      → IsConsistent b
      → AllGranted b.epoll
      → has b.connections fd ≡ true
      → Kept b (ingress e fd b frame).1
  unfolding ingress
  ingress-Kept {b} fd frame c g h =
      if_cases (λ (r : Bool × Broker). Kept b r.1) (length frame == 0) (λ _. unchanged c g)
        (λ _. decoded-Kept fd (decode e (some frame)) c g h)
