-- ===== src/Probed/Engine/Armed.antt =====
-- The states that the engine reaches.
use mathlib.Core.Bool.{false≢true}
use nf_nms.Common.{
  ℕ, ◌+◌, List, [], ◌∷◌, ◌≡◌, inl, inr, refl, ap, sym, subst, ◌∙◌, Option, none, some, Bool, true,
  false, if_cases, Bool-cases, not, ltb, ◌==◌, arith,
}
use nf_nms.Ipc.Codec.{Endian}
use nf_nms.Probed.Icmp.{IcmpPacket}
use nf_nms.Probed.Transport.{IcmpConnection, send_loop, handle_recv}
use nf_nms.Probed.Transport.Queues.{handle_recv-done}
use nf_nms.Probed.Transport.Sends.{send_loop-IsSent}
use nf_nms.Probed.Engine.{
  IcmpEngine, closed, reopen_backoff, is_opened, close_connection, init, reopen, egress, after_recv,
  after_send, Ready, Event, wakeup, ready, send_part, recv_part, then_send, own_event, on_socket,
  handle_event, handle_all, after_wait, poll,
}
use nf_nms.Probed.Engine.Settled.{
  IsAtRest, IsSettled, shut, open_on, close-IsSettled, opening-IsSettled, egress-IsSettled,
  after_result-IsSettled, left_fits,
}

module _ (e : Endian) (is_address : List ℕ → Bool) where
  send-IsSettled :
      (r : Ready) (c : IcmpConnection) (w : Bool) (s : IcmpEngine)
      → s.socket ≡ some c.fd
      → s.conn ≡ some c
      → s.interest ≡ some w
      → s.initialized ≡ true
      → IsAtRest c
      → (w ≡ false → c.tx_queue ≡ [])
      → IsSettled (send_part e is_address r c s)
  unfolding send_part after_send
  send-IsSettled r c w s k q t n i h =
      let sent = send_loop-IsSent is_address r.tx_answers c.tx_queue s.wire in
      let after = send_loop is_address r.tx_answers c.tx_queue s.wire in
      let (fits, empty) = left_fits sent in
      if_cases IsSettled r.is_send
        (λ _.
          after_result-IsSettled after.result r.modified (record c { tx_queue = after.queue }) w
            (record s { conn = some (record c { tx_queue = after.queue }); wire = after.wire }) k
            refl t n
            (record {
              read = i.read;
              limit = i.limit;
              rx_limit = i.rx_limit;
              bounded = omega (arith, fits, i.bounded);
            })
            (λ x. empty (h x)) sent.finished)
        (λ _. open_on c w k q t n i h)

  recv-IsSettled :
      (r : Ready) (c : IcmpConnection) (w : Bool) (s : IcmpEngine)
      → s.socket ≡ some c.fd
      → s.conn ≡ some c
      → s.interest ≡ some w
      → s.initialized ≡ true
      → IsAtRest c
      → (w ≡ false → c.tx_queue ≡ [])
      → IsSettled (recv_part e is_address r c s).1
  unfolding recv_part after_recv close_connection
  recv-IsSettled r c w s k q t n i h =
      let Settles = λ (x : Bool × IcmpEngine). IsSettled x.1 in
      if_cases Settles r.is_recv
        (λ _. elim (Bool-cases (handle_recv e r.rx_answers c s.delivered).0) [
          | inr f ↦ rw f (shut refl refl refl refl)
          | inl g ↦
              let done = handle_recv-done e r.rx_answers c s.delivered g in
              rw (g, done)
                (open_on (record c { rx_queue = [] }) w k refl t n
                  (record {
                    read = refl;
                    limit = i.limit;
                    rx_limit = i.rx_limit;
                    bounded = i.bounded;
                  })
                  h)
        ])
        (λ _. open_on c w k q t n i h)

  then_send-IsSettled :
      (r : Ready) (x : Bool × IcmpEngine) → IsSettled x.1 → IsSettled (then_send e is_address r x)
  unfolding then_send
  then_send-IsSettled r (false, s) i = i
  then_send-IsSettled r (true, s) (shut k c i n) = rw c (shut k c i n)
  then_send-IsSettled r (true, s) (open_on c w k q t n i h) =
      rw q (send-IsSettled r c w s k q t n i h)

  handle_event-IsSettled :
      (event : Event) {s : IcmpEngine} → IsSettled s → IsSettled (handle_event e is_address event s)
  unfolding handle_event on_socket own_event
  handle_event-IsSettled wakeup i = i
  handle_event-IsSettled (ready r) {s} (shut k c i n) =
      subst IsSettled (ap (λ o. on_socket e is_address o s.conn r s) (sym k)) (shut k c i n)
  handle_event-IsSettled (ready r) {s} (open_on c w k q t n i h) =
      let reached : on_socket e is_address (some c.fd) (some c) r s
          ≡ handle_event e is_address (ready r) s =
        ap (λ o. on_socket e is_address (some c.fd) o r s) (sym q)
        ∙ ap (λ o. on_socket e is_address o s.conn r s) (sym k) in
      subst IsSettled reached (
        if_cases IsSettled (not (c.fd == r.fd)) (λ _. open_on c w k q t n i h)
          (λ _.
            if_cases IsSettled r.is_close (λ _. close-IsSettled s)
              (λ _.
                then_send-IsSettled r (recv_part e is_address r c s)
                  (recv-IsSettled r c w s k q t n i h))))

  handle_all-IsSettled :
      (events : List Event) {s : IcmpEngine}
      → IsSettled s
      → IsSettled (handle_all e is_address events s)
  unfolding handle_all
  handle_all-IsSettled [] i = i
  handle_all-IsSettled (event ∷ events) i =
      handle_all-IsSettled events (handle_event-IsSettled event i)

  after_wait-IsSettled :
      (events : Option (List Event)) {s : IcmpEngine}
      → IsSettled s
      → IsSettled (after_wait e is_address events s)
  unfolding after_wait
  after_wait-IsSettled none i = i
  after_wait-IsSettled (some events) i = handle_all-IsSettled events i

  reopen-IsSettled :
      (opened : Option ℕ) (added : Bool) (s : IcmpEngine) → IsSettled (reopen opened added s).1
  unfolding reopen close_connection
  reopen-IsSettled opened added s =
      opening-IsSettled opened added (close_connection s) refl refl refl refl

  poll-IsSettled :
      (now : ℕ) (opened : Option ℕ) (added : Bool) (events : Option (List Event)) {s : IcmpEngine}
      → IsSettled s
      → IsSettled (poll e is_address now opened added events s)
  unfolding poll
  poll-IsSettled now opened added events {s} i =
      let tried = reopen opened added (record s { next_reopen_at = now + reopen_backoff }) in
      let reopened =
        reopen-IsSettled opened added (record s { next_reopen_at = now + reopen_backoff }) in
      if_cases IsSettled (is_opened s) (λ _. after_wait-IsSettled events i)
        (λ _.
          if_cases IsSettled (ltb now s.next_reopen_at) (λ _. i)
            (λ _.
              if_cases IsSettled tried.0 (λ _. after_wait-IsSettled events reopened)
                (λ _. reopened)))

  init-IsSettled :
      (epoll_made : Bool) (opened : Option ℕ) (added : Bool) {s : IcmpEngine}
      → IsSettled s
      → IsSettled (init epoll_made opened added s).1
  unfolding init
  init-IsSettled epoll_made opened added {s} (shut k c i n) =
      let Settles = λ (r : Bool × IcmpEngine). IsSettled r.1 in
      if_cases Settles s.initialized (λ _. shut k c i n)
        (λ _.
          if_cases Settles (not epoll_made) (λ _. shut k c i n)
            (λ _. opening-IsSettled opened added s k c i n))
  init-IsSettled epoll_made opened added {s} (open_on c w k q t n i h) =
      if_cases (λ (r : Bool × IcmpEngine). IsSettled r.1) s.initialized
        (λ _. open_on c w k q t n i h) (λ f. absurd (false≢true (sym f ∙ n)))

  -- The states of the engine, whatever the system calls answer.
  pub data Run : IcmpEngine → Type 0 where
    started : Run closed
    opened_up :
        {s : IcmpEngine} (epoll_made : Bool) (opened : Option ℕ) (added : Bool)
        → Run s
        → Run (init epoll_made opened added s).1
    polled :
        {s : IcmpEngine} (now : ℕ) (opened : Option ℕ) (added : Bool) (events : Option (List Event))
        → Run s
        → Run (poll e is_address now opened added events s)
    sent :
        {s : IcmpEngine} (modified : Bool) (packet : Option IcmpPacket) (dst_ip : List ℕ)
        → Run s
        → Run (egress e modified packet dst_ip s)

  -- In every state that the engine reaches by starting, polling and sending, whatever the system
  -- calls answer, it is wholly closed, or it is open on the one socket that epoll knows: then
  -- everything received has been handed over, at most 4096 datagrams wait to be sent, and epoll
  -- waits for room to send while any does.
  pub Run-IsSettled : {s : IcmpEngine} → Run s → IsSettled s
  unfolding closed
  Run-IsSettled started = shut refl refl refl refl
  Run-IsSettled (opened_up epoll_made opened added run) =
      init-IsSettled epoll_made opened added (Run-IsSettled run)
  Run-IsSettled (polled now opened added events run) =
      poll-IsSettled now opened added events (Run-IsSettled run)
  Run-IsSettled (sent modified packet dst_ip run) =
      egress-IsSettled e modified packet dst_ip (Run-IsSettled run)
