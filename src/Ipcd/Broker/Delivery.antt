-- ===== src/Ipcd/Broker/Delivery.antt =====
-- What the broker does with one frame: refusal of a sender that is not bound to the connection, and
-- delivery to the destination.
use nf_nms.Common.{
  ℕ, ◌-◌, ◌≤◌, ◌<◌, List, ◌++◌, ◌≡◌, ◌≢◌, refl, ap, ◌∙◌, sym, some, Bool, true, false, arith, ◌==◌,
  ==_iff, inl, inr, if_cases, length, subst,
}
use nf_nms.Ring
use nf_nms.Ring.Contents.{contents}
use nf_nms.Ipc.Protocol.Daemon.{IpcDaemon, daemon_eq}
use nf_nms.Ipc.Protocol.Cmd.{IpcCmd}
use nf_nms.Ipc.Protocol.Flag.{IpcFlag, has_flag}
use nf_nms.Ipc.Message.{IpcMessage, get_src, get_dst, get_cmd}
use nf_nms.Ipc.Codec.{Endian, DecodeResult, encode, decode}
use nf_nms.Ipc.Codec.RoundTrip.{IsSendable, length-encode, decode-encode}
use nf_nms.Ipc.Connection.{IpcConnection, write}
use nf_nms.Ipc.Connection.Stream.{IsReady, write_all_or_none, write-fd}
use nf_nms.Ipcd.Routes.{RuntimeTable, find_route, bind_route}
use nf_nms.Ipcd.Routes.Binding.{bind_route_guard, bind_route_bound}
use nf_nms.Ipcd.Broker.{
  Broker, find_connection, put_connection, armed, queued, enqueue_frame, send_frame, unicast,
  rx_route, egress, bound, decoded, ingress,
}
use nf_nms.Ipcd.Broker.Table.{
  find_connection-has, find_connection-fd, find_connection-IsReady, find_connection-put_connection,
}
use nf_nms.Ipcd.Broker.Safety.{IsConsistent, AllGranted, epoll_ctl_granted}

refused :
    (e : Endian) (b : Broker) (m : IpcMessage) (r : Bool × RuntimeTable)
    → r.0 ≡ false
    → bound e b m r ≡ (false, b)
unfolding bound
refused e b m (true, t) h = absurd (cc (h))
refused e b m (false, t) h = refl

-- A frame that decodes to a message whose sender's address leads to another connection is refused,
-- and changes nothing in the broker: no queue, no route, no ring.
pub ingress_spoofed :
    (e : Endian) (b : Broker) (fd other : ℕ) (frame : List ℕ) (m : IpcMessage)
    → decode e (some frame) ≡ (DecodeResult.ok, some m)
    → find_route b.table (get_src m) ≡ some other
    → other ≢ fd
    → ingress e fd b frame ≡ (false, b)
unfolding ingress decoded
ingress_spoofed e b fd other frame m d r n =
    if_cases (λ (x : Bool × Broker). x ≡ (false, b)) (length frame == 0) (λ _. refl)
      (λ _. ap (decoded e b fd) d ∙ refused e b m (bind_route b.table (get_src m) fd) stays)
  where
    stays : (bind_route b.table (get_src m) fd).0 ≡ false
    stays = elim (bind_route_guard b.table (get_src m) fd) [
      | inl (_, inl free, _, _) ↦ absurd (ground (arith, free, r))
      | inl (_, inr same, _, _) ↦ absurd (ground (arith, same, r, n))
      | inr (shut, _, _) ↦ shut
    ]

-- Queueing a frame that fits, when `epoll_ctl` succeeds.
pub record Delivered (b : Broker) (fd : ℕ) (conn : IpcConnection) (frame : List ℕ) (b' : Broker)
    : Type 0 where
  pub receiver : IpcConnection
  pub stored : find_connection b'.connections fd ≡ some receiver
  pub queue : contents receiver.tx ≡ contents conn.tx ++ frame
  pub others : (k : ℕ) → k ≢ fd → find_connection b'.connections k ≡ find_connection b.connections k
  pub routes : b'.table ≡ b.table

put-Delivered :
    (b : Broker) (fd : ℕ) {conn : IpcConnection} (conn' : IpcConnection) (frame : List ℕ)
    (later : List Bool)
    → find_connection b.connections fd ≡ some conn
    → conn'.fd ≡ fd
    → contents conn'.tx ≡ contents conn.tx ++ frame
    → Delivered b fd conn frame
        (record b { connections = put_connection b.connections conn'; epoll = later })
put-Delivered b fd {conn} conn' frame later f same q = record {
  receiver = conn';
  stored = ground (
    arith,
    find_connection-put_connection b.connections conn' fd,
    find_connection-has b.connections fd conn f,
  );
  queue = q;
  others = λ k n. ground (arith, find_connection-put_connection b.connections conn' k);
  routes = refl;
}

queued-Delivered :
    {b : Broker} (fd : ℕ) {conn : IpcConnection} (r : Bool × IpcConnection) (frame : List ℕ)
    → AllGranted b.epoll
    → find_connection b.connections fd ≡ some conn
    → r.0 ≡ true
    → r.1.fd ≡ fd
    → contents r.1.tx ≡ contents conn.tx ++ frame
    → Delivered b fd conn frame (queued b fd r).1
unfolding queued armed
queued-Delivered fd (false, conn') frame g f ok same q = absurd (cc (ok))
queued-Delivered {b} fd {conn} (true, conn') frame g f ok same q =
    let b' = record b { connections = put_connection b.connections conn' } in
    let (later, h, _) = epoll_ctl_granted b' g in
    subst (λ r. Delivered b fd conn frame (armed fd r).1) (sym h)
      (put-Delivered b fd conn' frame later f same q)

pub enqueue_frame-Delivered :
    {b : Broker} (fd : ℕ) {conn : IpcConnection} (frame : List ℕ)
    → IsConsistent b
    → AllGranted b.epoll
    → find_connection b.connections fd ≡ some conn
    → 0 < length frame
    → length frame ≤ Ring.capacity conn.tx - conn.tx.size
    → Delivered b fd conn frame (enqueue_frame b fd frame).1
unfolding enqueue_frame
enqueue_frame-Delivered {b} fd {conn} frame c g f some_byte fits =
    rw (f, enqueue_frame)
      (if_cases (λ (r : Bool × Broker). Delivered b fd conn frame r.1) (length frame == 0)
        (λ z. absurd (omega (arith, some_byte, (==_iff _ _).0 z)))
        (λ _.
          queued-Delivered fd (write conn frame) frame g f (written ready).0 fd_kept
            (written ready).1))
  where
    ready : IsReady conn
    ready = find_connection-IsReady b.connections fd c.ready f

    fd_kept : (write conn frame).1.fd ≡ fd
    fd_kept = write-fd conn frame ∙ find_connection-fd b.connections fd conn f

    written :
        IsReady conn
        → ((write conn frame).0 ≡ true)
          × (contents (write conn frame).1.tx ≡ contents conn.tx ++ frame)
    written r = elim (write_all_or_none {conn = conn} frame r) [
      | inl (taken, _, q, _, _) ↦ (taken, q)
      | inr (_, over, _) ↦ absurd (omega (arith, over, fits))
    ]

-- The commands that the broker does not answer itself.
abbrev pub IsForwarded : IpcCmd → Type 0
IsForwarded cmd =
    (cmd ≢ IpcCmd.client_hello) × (cmd ≢ IpcCmd.sync_request) × (cmd ≢ IpcCmd.runtime_ready)

rx_route-egress :
    (e : Endian) (b : Broker) (m : IpcMessage) (cmd : IpcCmd)
    → IsForwarded cmd
    → rx_route e b m cmd ≡ egress e b m
unfolding rx_route
rx_route-egress e b m IpcCmd.client_hello h = absurd (h.0 refl)
rx_route-egress e b m IpcCmd.sync_request h = absurd (h.1 refl)
rx_route-egress e b m IpcCmd.runtime_ready h = absurd (h.2 refl)
rx_route-egress e b m _ h = refl

-- A message for one daemon, as the message says it.
pub record IsAddressed (m : IpcMessage) : Type 0 where
  pub one : daemon_eq (get_dst m) IpcDaemon.broadcast ≡ false
  pub unflagged : has_flag m.header.flags IpcFlag.broadcast ≡ false
  pub forwarded : IsForwarded (get_cmd m)

pub egress-Delivered :
    (e : Endian) {b : Broker} (m : IpcMessage) (fd : ℕ) {conn : IpcConnection}
    → IsAddressed m
    → IsSendable m
    → IsConsistent b
    → AllGranted b.epoll
    → find_route b.table (get_dst m) ≡ some fd
    → find_connection b.connections fd ≡ some conn
    → length (encode e (some m)) ≤ Ring.capacity conn.tx - conn.tx.size
    → Delivered b fd conn (encode e (some m)) (egress e b m)
unfolding egress unicast send_frame
egress-Delivered e {b} m fd {conn} a s c g r f fits =
    rw (a.one, a.unflagged, egress, r, unicast)
      (if_cases (λ (x : Bool × Broker). Delivered b fd conn (encode e (some m)) x.1)
        (length (encode e (some m)) == 0)
        (λ z. absurd (omega (arith, length-encode e s, (==_iff _ _).0 z)))
        (λ _.
          enqueue_frame-Delivered fd (encode e (some m)) c g f (omega (arith, length-encode e s))
            fits))

-- The frame of a sendable message, received on the connection that its sender is bound to and
-- addressed to another daemon with a route, is accepted and appended, byte for byte, to the transmit
-- queue of the destination's connection. No other connection and no route changes. The queue has
-- room for the frame, and `epoll_ctl` succeeds.
pub ingress_relays :
    (e : Endian) {b : Broker} (m : IpcMessage) (from fd : ℕ) {conn : IpcConnection}
    → IsAddressed m
    → IsSendable m
    → IsConsistent b
    → AllGranted b.epoll
    → find_route b.table (get_src m) ≡ some from
    → find_route b.table (get_dst m) ≡ some fd
    → find_connection b.connections fd ≡ some conn
    → length (encode e (some m)) ≤ Ring.capacity conn.tx - conn.tx.size
    → let (accepted, b') = ingress e from b (encode e (some m)) in
      (accepted ≡ true) × Delivered b fd conn (encode e (some m)) b'
unfolding ingress decoded bound
ingress_relays e {b} m from fd {conn} a s c g src dst f fits =
    if_cases (λ (x : Bool × Broker). Relayed x) (length (encode e (some m)) == 0)
      (λ z. absurd (omega (arith, length-encode e s, (==_iff _ _).0 z)))
      (λ _.
        subst (λ r. Relayed (decoded e b from r)) (sym (decode-encode e e s))
          (subst (λ t. Relayed (bound e b m t))
            (sym (bind_route_bound b.table (get_src m) from src))
            (
              refl,
              subst (Delivered b fd conn (encode e (some m)))
                  (sym (rx_route-egress e b m (get_cmd m) a.forwarded))
                  (egress-Delivered e m fd a s c g dst f fits),
            )))
  where
    Relayed : Bool × Broker → Type 0
    Relayed (accepted, b') = (accepted ≡ true) × Delivered b fd conn (encode e (some m)) b'
