-- ===== src/Ipc/Client/Receive.antt =====
-- From another daemon's codec to the client's router, through the socket and the receive ring.
use nf_nms.Common.{
  ℕ, ◌<◌, List, [], ◌∷◌, ◌++◌, ◌≡◌, ap, sym, ◌∙◌, append-nil, append_assoc, Option, some, Bool,
  true, false, if◌then◌else◌, ◌==◌, length, take, arith,
}
use nf_nms.Ipc.Message.{IpcMessage}
use nf_nms.Ipc.Codec.{Endian, encode}
use nf_nms.Ipc.Codec.RoundTrip.{IsSendable, decode-encode, length-encode}
use nf_nms.Ipc.Connection.{IpcConnection, Answer, would_block, Transfer, recv}
use nf_nms.Ipc.Connection.Stream.{IsReady, recv_stream}
use nf_nms.Ipc.Handler
use nf_nms.Ipc.Handler.{drain_rx_frames}
use nf_nms.Ipc.Handler.Split.{AllSendable, encode_all, give, Accepted}
use nf_nms.Ipc.Handler.Drain.{drain-encode_all}
use nf_nms.Ipc.Handler.Keep.{handle_recv-drain}
use nf_nms.Ring.{ByteRingBuffer}
use nf_nms.Ring.Inv.{IsValid}
use nf_nms.Ring.Contents.{contents}
use nf_nms.Ipc.Client.{
  connected, IpcClient, taken, ingress, after_recv, dispatch, socket_event, own_event, handle_event,
}

module _ (e e' : Endian) where
  ingress-encode :
      (m : IpcMessage) (delivered : List IpcMessage)
      → IsSendable m
      → ingress e' delivered (encode e (some m)) ≡ (true, delivered ++ (m ∷ []))
  unfolding ingress taken
  ingress-encode m delivered s =
      let long : (length (encode e (some m)) == 0) ≡ false = ground (arith, length-encode e s) in
      rw long (ap (taken e' delivered) (decode-encode e e' s))

  ingress-Accepted :
      (ms : List IpcMessage) (delivered : List IpcMessage)
      → AllSendable ms
      → Accepted e e' (ingress e') ms delivered
  ingress-Accepted [] delivered s = tt
  ingress-Accepted (m ∷ ms) delivered s =
      (ap (λ x. x.0) (ingress-encode m delivered s.0), ingress-Accepted ms _ s.1)

  give-ingress :
      (ms : List IpcMessage) (delivered : List IpcMessage)
      → AllSendable ms
      → give e e' (ingress e') ms delivered ≡ delivered ++ ms
  give-ingress [] delivered s = sym (append-nil delivered)
  give-ingress (m ∷ ms) delivered s =
      give-ingress ms _ s.1
      ∙ ap (λ x. x.1 ++ ms) (ingress-encode m delivered s.0)
      ∙ append_assoc delivered (m ∷ []) ms

  -- The messages that lie in the receive ring after `recv`, and the frame that has begun.
  received :
      (ins : List Answer) (wire : List ℕ) (ms : List IpcMessage) (last : IpcMessage) (n : ℕ)
      (delivered : List IpcMessage) {conn : IpcConnection}
      → IsReady conn
      → (recv ins conn wire).0.result ≡ would_block
      → (recv ins conn wire).0.wire ≡ []
      → AllSendable ms
      → IsSendable last
      → n < length (encode e (some last))
      → contents conn.rx ++ wire ≡ encode_all e ms ++ take n (encode e (some last))
      → (rx : ByteRingBuffer) × IsValid rx
        × (contents rx ≡ take n (encode e (some last)))
        × (Handler.handle_recv e' (ingress e') ins conn wire delivered
            ≡ (true, record conn { rx = rx }, [], delivered ++ ms))
  unfolding recv
  received ins wire ms last n delivered {conn} ready blocked dry sendable last_sendable part held =
      (
        r.1,
        d.0,
        d.2,
        handle_recv-drain e' (ingress e') (λ _. Unit {0}) (λ s bytes u. tt) ins conn wire delivered
              blocked
            ∙ ap (λ k. (k, record conn { rx = r.1 }, t.wire, r.2)) d.1
            ∙ ap (λ w. (true, record conn { rx = r.1 }, w, r.2)) dry
            ∙ ap (λ s. (true, record conn { rx = r.1 }, [], s))
                (d.3 ∙ give-ingress ms delivered sendable),
      )
    where
      t : Transfer
      t = (recv ins conn wire).0

      r : Bool × ByteRingBuffer × List IpcMessage
      r = drain_rx_frames e' (ingress e') t.ring delivered

      stream :
          IsReady (recv ins conn wire).1
          × (contents t.ring ++ t.wire ≡ contents conn.rx ++ wire)
          × (conn.tx ≡ conn.tx)
      stream = recv_stream ins wire ready

      arrived : contents t.ring ≡ encode_all e ms ++ take n (encode e (some last))
      arrived =
          sym (append-nil (contents t.ring))
          ∙ ap (λ w. contents t.ring ++ w) (sym dry)
          ∙ stream.1
          ∙ held

      d :
          IsValid r.1
          × (r.0 ≡ true)
          × (contents r.1 ≡ take n (encode e (some last)))
          × (r.2 ≡ give e e' (ingress e') ms delivered)
      d =
          drain-encode_all e e' (ingress e') ms last n delivered stream.0.rx_valid sendable
            last_sendable part (ingress-Accepted ms delivered sendable) arrived

  -- A connected client whose socket becomes readable, where the bytes in its receive ring and in
  -- the socket are the frames of sendable messages and the beginning of one more: if `recv` takes
  -- all that waits, the router is given exactly those messages, in order and decoded, whatever the
  -- byte order of the two hosts; the beginning stays in the receive ring, so that the next event
  -- goes on from there, and nothing else of the client changes.
  pub client_receives :
      (fd : ℕ) (so_error : Option ℕ) (ins : List Answer) (wire : List ℕ) (outs : List Answer)
      (registered : Bool) (ms : List IpcMessage) (last : IpcMessage) (n : ℕ) (c : IpcClient)
      (conn : IpcConnection)
      → c.socket ≡ some (some fd)
      → c.state ≡ connected
      → c.conn ≡ some conn
      → IsReady conn
      → (recv ins conn wire).0.result ≡ would_block
      → (recv ins conn wire).0.wire ≡ []
      → AllSendable ms
      → IsSendable last
      → n < length (encode e (some last))
      → contents conn.rx ++ wire ≡ encode_all e ms ++ take n (encode e (some last))
      → (rx : ByteRingBuffer) × IsValid rx
        × (contents rx ≡ take n (encode e (some last)))
        × (handle_event e' (socket_event fd so_error ins wire outs registered) false true false c
            ≡ record c { conn = some (record conn { rx = rx }); delivered = c.delivered ++ ms })
  unfolding handle_event own_event dispatch after_recv
  client_receives fd so_error ins wire outs registered ms last n c conn s k o ready blocked dry
        sendable last_sendable part held =
      let got =
        received ins wire ms last n c.delivered ready blocked dry sendable last_sendable part
          held in
      let own : (fd == fd) ≡ true = ground arith in
      (
        got.0,
        got.1,
        got.2,
        ap
              (λ x.
                own_event e' (socket_event fd so_error ins wire outs registered) false true false x
                  c)
              s
            ∙ ap
                (λ b.
                  if b
                  then dispatch e' so_error ins wire outs registered false true false c.state c.conn
                      c
                  else c)
                own
            ∙ ap (λ x. dispatch e' so_error ins wire outs registered false true false x c.conn c) k
            ∙ ap (λ x. dispatch e' so_error ins wire outs registered false true false connected x c)
                o
            ∙ ap (λ x. after_recv outs registered false x c) got.3,
      )
