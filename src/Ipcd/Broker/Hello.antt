-- ===== src/Ipcd/Broker/Hello.antt =====
-- The first frame of a daemon: its sender is bound, and it is queued for the bootstrap service.
use nf_nms.Common.{
  ℕ, [], ◌∷◌, ◌++◌, ◌≡◌, ap, ◌∙◌, sym, subst, none, some, Bool, true, false, arith, ◌==◌, ==_iff,
  inl, inr, if_cases, length,
}
use nf_nms.Ipc.Protocol.Cmd.{IpcCmd}
use nf_nms.Ipc.Message.{IpcMessage, get_src, get_cmd}
use nf_nms.Ipc.Codec.{Endian, encode}
use nf_nms.Ipc.Codec.RoundTrip.{IsSendable, length-encode, decode-encode}
use nf_nms.Ipcd.Routes.{RuntimeTable, find_route, bind_route}
use nf_nms.Ipcd.Routes.Binding.{bind_route_guard, find_route-bind_route}
use nf_nms.Ipcd.Broker.{
  Broker, receive_client_hello, find_connection, rx_route, bound, decoded, ingress,
}
use nf_nms.Ipcd.Broker.Table.{find_connection-has, has}
use nf_nms.Ipcd.Broker.Safety.{IsConsistent}
use nf_nms.Ipc.Connection.{IpcConnection}

-- The broker once the sender leads to the connection.
abbrev pub joined : Broker → IpcMessage → ℕ → Broker
joined b m fd = record b { table = (bind_route b.table (get_src m) fd).1 }

bind_free :
    (b : Broker) (m : IpcMessage) (fd : ℕ)
    → find_route b.table (get_src m) ≡ none
    → ((bind_route b.table (get_src m) fd).0 ≡ true)
      × (find_route (bind_route b.table (get_src m) fd).1 (get_src m) ≡ some fd)
bind_free b m fd free = elim (bind_route_guard b.table (get_src m) fd) [
  | inl (ok, _, leads, _) ↦ (ok, leads)
  | inr (_, (other, taken, _), _) ↦ absurd (ground (arith, free, taken))
]

accepted :
    (e : Endian) (b : Broker) (m : IpcMessage) (r : Bool × RuntimeTable)
    → r.0 ≡ true
    → get_cmd m ≡ IpcCmd.client_hello
    → bound e b m r
      ≡ (true, record b { table = r.1; events = b.events ++ (receive_client_hello m ∷ []) })
unfolding bound rx_route
accepted e b m (false, t) h k = absurd (cc (h))
accepted e b m (true, t) h k = ap (λ c. (true, rx_route e (record b { table = t }) m c)) k

pub ingress_hello :
    (e : Endian) (b : Broker) (m : IpcMessage) (fd : ℕ)
    → IsSendable m
    → get_cmd m ≡ IpcCmd.client_hello
    → find_route b.table (get_src m) ≡ none
    → (ingress e fd b (encode e (some m))
        ≡ (true, record (joined b m fd) { events = b.events ++ (receive_client_hello m ∷ []) }))
      × (find_route (joined b m fd).table (get_src m) ≡ some fd)
unfolding ingress decoded
ingress_hello e b m fd s k free =
    let (ok, leads) = bind_free b m fd free in
    (
      if_cases
          (λ (x : Bool × Broker).
            x
            ≡ (true, record (joined b m fd) { events = b.events ++ (receive_client_hello m ∷ []) }))
          (length (encode e (some m)) == 0)
          (λ z. absurd (omega (arith, length-encode e s, (==_iff _ _).0 z)))
          (λ _.
            ap (decoded e b fd) (decode-encode e e s)
            ∙ accepted e b m (bind_route b.table (get_src m) fd) ok k),
      leads,
    )

-- Routes still lead to open connections once a sender has been bound to one.
pub joined-IsConsistent :
    {b : Broker} (m : IpcMessage) (fd : ℕ) {conn : IpcConnection}
    → IsConsistent b
    → find_connection b.connections fd ≡ some conn
    → IsConsistent (record (joined b m fd) { events = []; actions = [] })
joined-IsConsistent {b} m fd {conn} c f = record {
  routed = λ d to r. elim (find_route-bind_route b.table (get_src m) fd d to r) [
    | inl before ↦ c.routed d to before
    | inr same ↦
        subst (λ n. has b.connections n ≡ true) (sym same)
          (find_connection-has b.connections fd conn f)
  ];
  ready = c.ready;
}
