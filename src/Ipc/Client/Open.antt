-- ===== src/Ipc/Client/Open.antt =====
-- The client's state, its socket and its connection agree.
use nf_nms.Common.{
  ℕ, List, [], ◌≡◌, refl, sym, ◌∙◌, subst, Option, none, some, Bool, true, false, if_cases,
  Option-cases, if◌then◌else◌, ◌⊎◌, inl, inr, ◌==◌, ◌||◌, length,
}
use nf_nms.Ipc.Message.{IpcMessage}
use nf_nms.Ipc.Codec.{Endian}
use nf_nms.Ipc.Connection.{IpcConnection, Answer, write}
use nf_nms.Ipc.Connection.Stream.{IsReady, write-fd, write_all_or_none}
use nf_nms.Ipc.Handler
use nf_nms.Ipc.Handler.{Interest}
use nf_nms.Ipc.Handler.Keep.{handle_recv_keep, handle_recv-fd, handle_send-IsReady, handle_send-fd}
use nf_nms.Ipc.Client.{
  State, disconnected, connecting, connected, IpcClient, close_connection, queued, enqueue_on,
  enqueue_frame, handle_connect, Source, wakeup, socket_event, own_event, ingress, after_send,
  after_recv, dispatch, handle_event,
}

pub record IsClosed (c : IpcClient) : Type 0 where
  pub state_is : c.state ≡ disconnected
  pub conn_is : c.conn ≡ none
  pub socket_is : (c.socket ≡ none) ⊎ (c.socket ≡ some none)

-- Connecting or connected: initialized, with an open socket and a connection on its descriptor.
pub record IsOpen (c : IpcClient) : Type 0 where
  pub own : ℕ
  pub own_conn : IpcConnection
  pub live : (c.state ≡ connecting) ⊎ (c.state ≡ connected)
  pub socket_is : c.socket ≡ some (some own)
  pub conn_is : c.conn ≡ some own_conn
  pub same : own_conn.fd ≡ own
  pub ready : IsReady own_conn

-- An open client has been initialized.
abbrev pub IsConsistent : IpcClient → Type 0
IsConsistent c = IsClosed c ⊎ (IsOpen c × (c.initialized ≡ true))

close_connection-IsClosed : (c : IpcClient) → IsClosed (close_connection c)
unfolding close_connection
close_connection-IsClosed c = record {
  state_is = refl;
  conn_is = refl;
  socket_is = elim (Option-cases c.socket) [
    | inl q ↦ rw q (inl refl)
    | inr (_, q) ↦ rw q (inr refl)
  ];
}

abbrev kept_open :
    {c : IpcClient} (o : IsOpen c) (conn : IpcConnection) (delivered : List IpcMessage)
    → conn.fd ≡ o.own
    → IsReady conn
    → IsOpen (record c { conn = some conn; delivered = delivered })
kept_open o conn delivered same ready = record {
  own = o.own;
  own_conn = conn;
  live = o.live;
  socket_is = o.socket_is;
  conn_is = refl;
  same = same;
  ready = ready;
}

write-IsReady :
    {conn : IpcConnection} (bytes : List ℕ) → IsReady conn → IsReady (write conn bytes).1
write-IsReady {conn} bytes ready = elim (write_all_or_none bytes ready) [
  | inl (_, _, _, r, _) ↦ r
  | inr (_, _, same) ↦ subst IsReady (sym same) ready
]

pub enqueue-IsConsistent :
    (armed : Bool) (frame : List ℕ) {c : IpcClient}
    → IsConsistent c
    → IsConsistent (enqueue_frame armed frame c).1
unfolding enqueue_frame enqueue_on queued
enqueue-IsConsistent armed frame {c} (inl s) = elim s.socket_is [
  | inl q ↦ subst (λ x. IsConsistent (enqueue_on armed frame x c.state c.conn c).1) (sym q) (inl s)
  | inr q ↦
      subst (λ x. IsConsistent (enqueue_on armed frame x c.state c.conn c).1) (sym q)
        (subst (λ x. IsConsistent (enqueue_on armed frame (some none) x c.conn c).1)
          (sym s.state_is) (inl s))
]
enqueue-IsConsistent armed frame {c} (inr (o, i)) =
    subst (λ x. IsConsistent (enqueue_on armed frame x c.state c.conn c).1) (sym o.socket_is)
      (subst (λ x. IsConsistent (enqueue_on armed frame (some (some o.own)) c.state x c).1)
        (sym o.conn_is) (by_state c.state))
  where
    unchanged : IsConsistent c
    unchanged = inr (o, i)

    by_state :
        (k : State)
        → IsConsistent (enqueue_on armed frame (some (some o.own)) k (some o.own_conn) c).1
    by_state disconnected = unchanged
    by_state connecting = unchanged
    by_state connected =
        if_cases (λ (x : Bool × IpcClient). IsConsistent x.1) (length frame == 0) (λ _. unchanged)
          (λ _.
            if_cases (λ (x : Bool × IpcClient). IsConsistent x.1) (write o.own_conn frame).0
              (λ _.
                if_cases (λ (x : Bool × IpcClient). IsConsistent x.1) armed
                  (λ _. inr (
                    kept_open o (write o.own_conn frame).1 c.delivered
                        (write-fd o.own_conn frame ∙ o.same) (write-IsReady frame o.ready),
                    i,
                  ))
                  (λ _. inl (close_connection-IsClosed _)))
              (λ _. unchanged))

after_send-IsConsistent :
    (outs : List Answer) (registered : Bool) {c : IpcClient} (o : IsOpen c) (conn : IpcConnection)
    → c.initialized ≡ true
    → conn.fd ≡ o.own
    → IsReady conn
    → IsConsistent (after_send (Handler.handle_send registered outs conn []) c)
unfolding after_send
after_send-IsConsistent outs registered {c} o conn i same ready =
    let r = Handler.handle_send registered outs conn [] in
    if_cases IsConsistent r.0
      (λ _. inr (
        kept_open o r.2 c.delivered (handle_send-fd registered outs conn [] ∙ same)
            (handle_send-IsReady registered outs [] ready),
        i,
      ))
      (λ _. inl (close_connection-IsClosed _))

after_recv-IsConsistent :
    (outs : List Answer) (registered is_send kept : Bool) (left : List ℕ)
    (delivered : List IpcMessage) {c : IpcClient} (o : IsOpen c) (conn : IpcConnection)
    → c.initialized ≡ true
    → conn.fd ≡ o.own
    → IsReady conn
    → IsConsistent (after_recv outs registered is_send (kept, conn, left, delivered) c)
unfolding after_recv
after_recv-IsConsistent outs registered is_send kept left delivered {c} o conn i same ready =
    let o' = kept_open o conn delivered same ready in
    if_cases IsConsistent kept
      (λ _.
        if_cases IsConsistent is_send
          (λ _. after_send-IsConsistent outs registered o' conn i same ready) (λ _. inr (o', i)))
      (λ _. inl (close_connection-IsClosed _))

dispatch-IsConsistent :
    (e : Endian) (so_error : Option ℕ) (ins : List Answer) (wire : List ℕ) (outs : List Answer)
    (registered is_close is_recv is_send : Bool) {c : IpcClient} (o : IsOpen c) (k : State)
    → c.initialized ≡ true
    → IsConsistent (
        dispatch e so_error ins wire outs registered is_close is_recv is_send k (some o.own_conn) c)
unfolding dispatch
dispatch-IsConsistent e so_error ins wire outs registered is_close is_recv is_send o disconnected
      i =
    inr (o, i)
dispatch-IsConsistent e so_error ins wire outs registered is_close is_recv is_send {c} o connecting
      i =
    if_cases IsConsistent (is_close || is_recv || is_send)
      (λ _.
        if_cases IsConsistent (handle_connect so_error registered)
          (λ _. inr (
            record {
              own = o.own;
              own_conn = o.own_conn;
              live = inr refl;
              socket_is = o.socket_is;
              conn_is = o.conn_is;
              same = o.same;
              ready = o.ready;
            },
            i,
          ))
          (λ _. inl (close_connection-IsClosed _)))
      (λ _. inr (o, i))
dispatch-IsConsistent e so_error ins wire outs registered is_close is_recv is_send {c} o connected
      i =
    if_cases IsConsistent is_close (λ _. inl (close_connection-IsClosed _)) (λ _. received is_recv)
  where
    r : Bool × IpcConnection × List ℕ × List IpcMessage
    r = Handler.handle_recv e (ingress e) ins o.own_conn wire c.delivered

    received :
        (b : Bool)
        → IsConsistent (
            after_recv outs registered is_send
              (if b then r else (true, o.own_conn, wire, c.delivered))
              c)
    received true =
        after_recv-IsConsistent outs registered is_send r.0 r.2 r.3 o r.1 i
          (handle_recv-fd e (ingress e) (λ _. Unit {0}) (λ s bytes u. tt) ins o.own_conn wire
              c.delivered
            ∙ o.same)
          (handle_recv_keep e (ingress e) (λ _. Unit {0}) (λ s bytes u. tt) ins wire c.delivered
            o.ready tt).0
    received false =
        after_recv-IsConsistent outs registered is_send true wire c.delivered o o.own_conn i o.same
          o.ready

pub event-IsConsistent :
    (e : Endian) (source : Source) (is_close is_recv is_send : Bool) {c : IpcClient}
    → IsConsistent c
    → IsConsistent (handle_event e source is_close is_recv is_send c)
unfolding handle_event own_event
event-IsConsistent e wakeup is_close is_recv is_send h = h
event-IsConsistent e (socket_event fd so_error ins wire outs registered) is_close is_recv is_send
      {c} (inl s) =
    let source = socket_event fd so_error ins wire outs registered in
    elim s.socket_is [
      | inl q ↦
          subst (λ x. IsConsistent (own_event e source is_close is_recv is_send x c)) (sym q)
            (inl s)
      | inr q ↦
          subst (λ x. IsConsistent (own_event e source is_close is_recv is_send x c)) (sym q)
            (inl s)
    ]
event-IsConsistent e (socket_event fd so_error ins wire outs registered) is_close is_recv is_send
      {c} (inr (o, i)) =
    let source = socket_event fd so_error ins wire outs registered in
    subst (λ x. IsConsistent (own_event e source is_close is_recv is_send x c)) (sym o.socket_is)
      (if_cases IsConsistent (fd == o.own)
        (λ _.
          subst
            (λ x.
              IsConsistent
                (dispatch e so_error ins wire outs registered is_close is_recv is_send c.state x c))
            (sym o.conn_is)
            (dispatch-IsConsistent e so_error ins wire outs registered is_close is_recv is_send o
              c.state i))
        (λ _. inr (o, i)))
