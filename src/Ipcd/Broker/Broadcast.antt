-- ===== src/Ipcd/Broker/Broadcast.antt =====
-- Whom a broadcast reaches.
use nf_nms.Common.{
  ℕ, List, [], ◌∷◌, ◌≡◌, ◌≢◌, refl, ◌∙◌, ap, sym, some, Bool, true, false, arith, ◌==◌, inl, inr,
  Option-cases, if_cases, length,
}
use nf_nms.Ipc.Protocol.Daemon.{IpcDaemon}
use nf_nms.Ipc.Connection.{IpcConnection, write}
use nf_nms.Ipc.Connection.Stream.{write-fd}
use nf_nms.Ipcd.Routes.{RuntimeTable, find_route}
use nf_nms.Ipcd.Routes.Binding.{find_route-kept}
use nf_nms.Ipcd.Broker.{
  Broker, find_connection, put_connection, answer, epoll_ctl, close_connection, armed, queued,
  enqueue_frame, is_skipped, broadcast_loop,
}
use nf_nms.Ipcd.Broker.Table.{
  find_connection-fd, find_connection-put_connection, find_connection-erase,
}

-- One connection is written or closed: the others stay, and no route is new.
record Spared (fd : ℕ) (b b' : Broker) : Type 0 where
  others : (k : ℕ) → k ≢ fd → find_connection b'.connections k ≡ find_connection b.connections k
  routes : (d : IpcDaemon) (k : ℕ) → find_route b'.table d ≡ some k → find_route b.table d ≡ some k

unspent : (fd : ℕ) (b : Broker) → Spared fd b b
unspent fd b = record { others = λ k n. refl; routes = λ d k h. h }

armed-Spared : (fd : ℕ) (b : Broker) (es : List Bool) → Spared fd b (armed fd (answer b es)).1
unfolding armed answer close_connection
armed-Spared fd b [] = record { others = λ k n. refl; routes = λ d k h. h }
armed-Spared fd b (true ∷ es) = record { others = λ k n. refl; routes = λ d k h. h }
armed-Spared fd b (false ∷ es) = record {
  others = λ k n. find_connection-erase b.connections fd k n;
  routes = λ d k h. (find_route-kept b.table fd k d h).0;
}

queued-Spared :
    (fd : ℕ) (b : Broker) (r : Bool × IpcConnection) → r.1.fd ≡ fd → Spared fd b (queued b fd r).1
unfolding queued epoll_ctl
queued-Spared fd b (false, conn) h = record { others = λ k n. refl; routes = λ d k h. h }
queued-Spared fd b (true, conn) h =
    let b' = record b { connections = put_connection b.connections conn } in
    let s = armed-Spared fd b' b.epoll in
    record {
      others = λ k n.
          s.others k n ∙ ground (arith, find_connection-put_connection b.connections conn k, h, n);
      routes = s.routes;
    }

enqueue_frame-Spared :
    (fd : ℕ) (b : Broker) (frame : List ℕ) → Spared fd b (enqueue_frame b fd frame).1
unfolding enqueue_frame
enqueue_frame-Spared fd b frame = elim (Option-cases (find_connection b.connections fd)) [
  | inl e ↦ rw (e, enqueue_frame) (unspent fd b)
  | inr (conn, e) ↦
      rw (e, enqueue_frame)
        (if_cases (λ (r : Bool × Broker). Spared fd b r.1) (length frame == 0) (λ _. unspent fd b)
          (λ _.
            queued-Spared fd b (write conn frame)
              (write-fd conn frame ∙ find_connection-fd b.connections fd conn e)))
]

-- A broadcast leaves a connection as it is if the only routes to it are those of the frame's source,
-- of ipcd and of the broadcast address, whatever happens to the other connections meanwhile.
pub broadcast_spares :
    (frame : List ℕ) (src : IpcDaemon) (keys : RuntimeTable) (b : Broker) (fd : ℕ)
    → ((d : IpcDaemon) → is_skipped src d ≡ false → find_route b.table d ≢ some fd)
    → find_connection (broadcast_loop frame src b keys).connections fd
      ≡ find_connection b.connections fd
unfolding broadcast_loop
broadcast_spares frame src [] b fd only = refl
broadcast_spares frame src ((d, _) ∷ keys) b fd only = elim (Option-cases (find_route b.table d)) [
  | inl r ↦ rw (r, broadcast_loop) (broadcast_spares frame src keys b fd only)
  | inr (to, r) ↦
      let s = enqueue_frame-Spared to b frame in
      rw (r, broadcast_loop)
        (if_cases
          (λ (x : Broker). find_connection x.connections fd ≡ find_connection b.connections fd)
          (is_skipped src d) (λ _. broadcast_spares frame src keys b fd only)
          (λ kept.
            broadcast_spares frame src keys (enqueue_frame b to frame).1 fd
              (λ k n q. only k n (s.routes k fd q))
            ∙ s.others fd (λ same. only d kept (r ∙ ap some (sym same)))))
]
