-- ===== src/Ipcd/Broker/Queues.antt =====
-- Sending touches no queue of the service manager.
use nf_nms.Common.{
  ℕ, List, [], ◌∷◌, ◌≡◌, refl, ◌∙◌, some, Bool, true, false, ◌==◌, inl, inr, Option-cases, if_cases,
  length, ◌||◌,
}
use nf_nms.Ipc.Protocol.Daemon.{IpcDaemon, daemon_eq}
use nf_nms.Ipc.Protocol.Flag.{IpcFlag, has_flag}
use nf_nms.Ipc.Message.{IpcMessage, get_src, get_dst}
use nf_nms.Ipc.Codec.{Endian, encode}
use nf_nms.Ipc.Connection.{IpcConnection, write}
use nf_nms.Ipcd.Routes.{RuntimeTable, find_route}
use nf_nms.Ipcd.Broker.{
  Broker, find_connection, put_connection, answer, epoll_ctl, close_connection, armed, queued,
  enqueue_frame, send_frame, unicast, is_skipped, broadcast_loop, broadcast, egress,
}

-- The queues are the same.
pub record SameQueues (b b' : Broker) : Type 0 where
  pub events : b'.events ≡ b.events
  pub actions : b'.actions ≡ b.actions

SameQueues-trans : {a b c : Broker} → SameQueues a b → SameQueues b c → SameQueues a c
SameQueues-trans p q = record { events = q.events ∙ p.events; actions = q.actions ∙ p.actions }

armed-SameQueues : (b : Broker) (fd : ℕ) (es : List Bool) → SameQueues b (armed fd (answer b es)).1
unfolding armed answer close_connection
armed-SameQueues b fd [] = record { events = refl; actions = refl }
armed-SameQueues b fd (true ∷ es) = record { events = refl; actions = refl }
armed-SameQueues b fd (false ∷ es) = record { events = refl; actions = refl }

queued-SameQueues :
    (b : Broker) (fd : ℕ) (r : Bool × IpcConnection) → SameQueues b (queued b fd r).1
unfolding queued epoll_ctl
queued-SameQueues b fd (false, conn) = record { events = refl; actions = refl }
queued-SameQueues b fd (true, conn) =
    let q =
      armed-SameQueues (record b { connections = put_connection b.connections conn }) fd b.epoll in
    record { events = q.events; actions = q.actions }

enqueue_frame-SameQueues :
    (b : Broker) (fd : ℕ) (frame : List ℕ) → SameQueues b (enqueue_frame b fd frame).1
unfolding enqueue_frame
enqueue_frame-SameQueues b fd frame = elim (Option-cases (find_connection b.connections fd)) [
  | inl e ↦ rw (e, enqueue_frame) (record { events = refl; actions = refl })
  | inr (conn, e) ↦
      rw (e, enqueue_frame)
        (if_cases (λ (r : Bool × Broker). SameQueues b r.1) (length frame == 0)
          (λ _. record { events = refl; actions = refl })
          (λ _. queued-SameQueues b fd (write conn frame)))
]

unicast-SameQueues : (e : Endian) (b : Broker) (m : IpcMessage) → SameQueues b (unicast e b m)
unfolding unicast send_frame
unicast-SameQueues e b m = elim (Option-cases (find_route b.table (get_dst m))) [
  | inl r ↦ rw (r, unicast) (record { events = refl; actions = refl })
  | inr (fd, r) ↦
      rw (r, unicast)
        (if_cases (λ (x : Bool × Broker). SameQueues b x.1) (length (encode e (some m)) == 0)
          (λ _. record { events = refl; actions = refl })
          (λ _. enqueue_frame-SameQueues b fd (encode e (some m))))
]

broadcast_loop-SameQueues :
    (frame : List ℕ) (src : IpcDaemon) (keys : RuntimeTable) (b : Broker)
    → SameQueues b (broadcast_loop frame src b keys)
unfolding broadcast_loop
broadcast_loop-SameQueues frame src [] b = record { events = refl; actions = refl }
broadcast_loop-SameQueues frame src ((d, _) ∷ keys) b = elim (Option-cases (find_route b.table d)) [
  | inl r ↦ rw (r, broadcast_loop) (broadcast_loop-SameQueues frame src keys b)
  | inr (fd, r) ↦
      rw (r, broadcast_loop)
        (if_cases (SameQueues b) (is_skipped src d)
          (λ _. broadcast_loop-SameQueues frame src keys b)
          (λ _.
            SameQueues-trans (enqueue_frame-SameQueues b fd frame)
              (broadcast_loop-SameQueues frame src keys (enqueue_frame b fd frame).1)))
]

pub egress-SameQueues : (e : Endian) (b : Broker) (m : IpcMessage) → SameQueues b (egress e b m)
unfolding egress broadcast
egress-SameQueues e b m =
    if_cases (SameQueues b)
      (daemon_eq (get_dst m) IpcDaemon.broadcast || has_flag m.header.flags IpcFlag.broadcast)
      (λ _.
        if_cases (SameQueues b) (length (encode e (some m)) == 0)
          (λ _. record { events = refl; actions = refl })
          (λ _. broadcast_loop-SameQueues (encode e (some m)) (get_src m) b.table b))
      (λ _. unicast-SameQueues e b m)
