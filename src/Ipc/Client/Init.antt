-- ===== src/Ipc/Client/Init.antt =====
-- Connecting to the broker, and the agreement of a client's state, socket and connection.
use nf_nms.Common.{
  ℕ, zero, suc, ◌<◌, ◌^◌, List, [], ◌∷◌, ◌≡◌, refl, sym, ◌∙◌, subst, none, some, Bool, true, false,
  if_cases, if◌then◌else◌, ◌⊎◌, inl, inr, ◌==◌, length,
}
use mathlib.Core.Bool.{false≢true}
use nf_nms.Ipc.Message.{IpcMessage}
use nf_nms.Ipc.Codec.{Endian, encode}
use nf_nms.Ipc.Connection.{connect}
use nf_nms.Ipc.Connection.Stream.{connect-IsReady}
use nf_nms.Ipc.Client.{
  State, disconnected, connecting, connected, IpcClient, close_connection, ConnectResult, failed,
  at_once, in_progress, init_socket, opened, connect_on, connect_server, init_loop, init, Source,
  egress, handle_event,
}
use nf_nms.Ipc.Client.Open.{
  IsClosed, IsOpen, IsConsistent, enqueue-IsConsistent, event-IsConsistent,
}

module _ (rx_buf tx_buf : ℕ) (rx_fits : rx_buf < 2 ^ 62) (tx_fits : tx_buf < 2 ^ 62) where
  -- An attempt to connect opens the client or leaves it closed, but for the socket.
  Attempted : Bool → Bool × IpcClient → Type 0
  Attempted before (done, c) =
      (c.initialized ≡ before)
      × (((done ≡ true) × IsOpen c) ⊎ ((done ≡ false) × (c.state ≡ disconnected) × (c.conn ≡ none)))

  opened-Attempted :
      (added : Bool) (fd : ℕ) (k : State) (c : IpcClient)
      → (k ≡ connecting) ⊎ (k ≡ connected)
      → Attempted c.initialized (opened rx_buf tx_buf added fd k c)
  unfolding Attempted opened close_connection connect
  opened-Attempted true fd k c h = (
    refl,
    inl (
      refl,
      record {
        own = fd;
        own_conn = connect fd rx_buf tx_buf;
        live = h;
        socket_is = refl;
        conn_is = refl;
        same = refl;
        ready = (connect-IsReady fd rx_buf tx_buf rx_fits tx_fits).0;
      },
    ),
  )
  opened-Attempted false fd k c h = (refl, inr (refl, refl, refl))

  connect-Attempted :
      (added : Bool) (result : ConnectResult) (c : IpcClient)
      → c.state ≡ disconnected
      → c.conn ≡ none
      → Attempted c.initialized (connect_on rx_buf tx_buf added result (some none) c)
  unfolding Attempted connect_on
  connect-Attempted added failed c s n = (refl, inr (refl, s, n))
  connect-Attempted added (at_once fd) c s n = opened-Attempted added fd connected c (inr refl)
  connect-Attempted added (in_progress fd) c s n = opened-Attempted added fd connecting c (inl refl)

  made : {c : IpcClient} → IsClosed c → (init_socket c).socket ≡ some none
  unfolding init_socket
  made s = elim s.socket_is [ inl q ↦ rw q | inr q ↦ rw q ]

  -- `init` ends with an open client exactly when it answers that it is done.
  Ended : Bool × IpcClient → Type 0
  Ended (done, c) = IsConsistent c × (done ≡ c.initialized)

  attempt-Ended :
      (r rest : Bool × IpcClient)
      → Attempted false r
      → (IsClosed (record r.1 { socket = none }) → r.1.initialized ≡ false → Ended rest)
      → Ended (if r.0 then (true, record r.1 { initialized = true }) else rest)
  unfolding Attempted Ended
  attempt-Ended (done, c) rest (same, inl (q, o)) later =
      if_cases Ended done
        (λ _. (
          inr (
            record {
              own = o.own;
              own_conn = o.own_conn;
              live = o.live;
              socket_is = o.socket_is;
              conn_is = o.conn_is;
              same = o.same;
              ready = o.ready;
            },
            refl,
          ),
          refl,
        ))
        (λ f. absurd (false≢true (sym f ∙ q)))
  attempt-Ended (done, c) rest (same, inr (q, s, n)) later =
      if_cases Ended done (λ f. absurd (false≢true (sym q ∙ f)))
        (λ _. later (record { state_is = s; conn_is = n; socket_is = inl refl }) same)

  init_loop-Ended :
      (left : ℕ) (answers : List (ConnectResult × Bool)) (c : IpcClient)
      → IsClosed c
      → c.initialized ≡ false
      → Ended (init_loop rx_buf tx_buf left answers c)
  unfolding init_loop Ended connect_server init_socket
  init_loop-Ended zero answers c s i = (inl s, sym i)
  init_loop-Ended (suc left) [] c s i =
      init_loop-Ended left [] (record c { socket = none })
        (record { state_is = s.state_is; conn_is = s.conn_is; socket_is = inl refl }) i
  init_loop-Ended (suc left) ((result, added) ∷ answers) c s i =
      let start = init_socket c in
      attempt-Ended (connect_server rx_buf tx_buf added result start) _
        (subst (λ x. Attempted false (connect_on rx_buf tx_buf added result x start)) (sym (made s))
          (subst (λ b. Attempted b (connect_on rx_buf tx_buf added result (some none) start)) i
            (connect-Attempted added result start s.state_is s.conn_is)))
        (λ closed j. init_loop-Ended left answers _ closed j)

  init-Ended :
      (max_attempts : ℕ) (epoll_ready : Bool) (answers : List (ConnectResult × Bool))
      {c : IpcClient}
      → IsConsistent c
      → Ended (init rx_buf tx_buf max_attempts epoll_ready answers c)
  unfolding init Ended
  init-Ended max_attempts epoll_ready answers {c} h =
      if_cases Ended c.initialized (λ i. (h, sym i))
        (λ i.
          if_cases Ended epoll_ready (λ _. init_loop-Ended max_attempts answers c (closed i h) i)
            (λ _. (h, sym i)))
    where
      closed : c.initialized ≡ false → IsConsistent c → IsClosed c
      closed i (inl s) = s
      closed i (inr (o, j)) = absurd (false≢true (sym i ∙ j))

-- A client's state, socket and connection agree: it is disconnected without a connection or an
-- open socket, or it is initialized with an open socket and a connection on its descriptor whose
-- rings are sound. `init` keeps this whatever the server and epoll answer, and its result says
-- whether the client is initialized, if the configured buffers are below 2^62 bytes; sending a
-- message and every event of epoll keep it too.
pub client-IsConsistent :
    (e : Endian) (rx_buf tx_buf : ℕ) {c : IpcClient}
    → rx_buf < 2 ^ 62
    → tx_buf < 2 ^ 62
    → IsConsistent c
    → ((max_attempts : ℕ) (epoll_ready : Bool) (answers : List (ConnectResult × Bool))
        → let (done, c') = init rx_buf tx_buf max_attempts epoll_ready answers c in
          IsConsistent c' × (done ≡ c'.initialized))
      × ((armed : Bool) (m : IpcMessage) → IsConsistent (egress e armed m c))
      × ((source : Source) (is_close is_recv is_send : Bool)
          → IsConsistent (handle_event e source is_close is_recv is_send c))
unfolding egress Ended
client-IsConsistent e rx_buf tx_buf {c} rx_fits tx_fits h = (
  λ max_attempts epoll_ready answers.
      init-Ended rx_buf tx_buf rx_fits tx_fits max_attempts epoll_ready answers h,
  λ armed m.
      if_cases IsConsistent (length (encode e (some m)) == 0) (λ _. h)
        (λ _. enqueue-IsConsistent armed (encode e (some m)) h),
  λ source is_close is_recv is_send. event-IsConsistent e source is_close is_recv is_send h,
)
