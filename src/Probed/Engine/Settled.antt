-- ===== src/Probed/Engine/Settled.antt =====
-- What the operations of the engine keep.
use mathlib.Core.Bool.{false≢true}
use nf_nms.Common.{
  ℕ, ◌≤◌, List, [], ◌∷◌, ◌++◌, ◌≡◌, refl, ap, sym, subst, ◌∙◌, Option, none, some, Bool, true,
  false, if_cases, leb, not_leb→lt, length, length-append, arith,
}
use nf_nms.Util.Password.{is_empty}
use nf_nms.Ipc.Codec.{Endian}
use nf_nms.Probed.Icmp.{IcmpPacket, encode}
use nf_nms.Probed.Transport.{
  IcmpIoResult, ok, would_block, peer_closed, buffer_full, error, TxFrame, IcmpConnection, connect,
  queue_limit, Sending, TxAnswer, write,
}
use nf_nms.Probed.Transport.Sends.{IsSent}
use nf_nms.Probed.Engine.{
  IcmpEngine, close_connection, init_socket, init_connection, registered, opening, armed,
  has_pending, after_result, enqueue_frame, egress,
}

-- A connection at rest: what has been received is handed over, and no more than the limit waits.
pub record IsAtRest (c : IcmpConnection) : Type 0 where
  pub read : c.rx_queue ≡ []
  pub limit : c.tx_queue_limit ≡ queue_limit
  pub rx_limit : c.rx_queue_limit ≡ queue_limit
  pub bounded : length c.tx_queue ≤ queue_limit

-- The engine is closed, or it is open on one socket that epoll knows, and epoll waits for the room
-- to send while anything is queued.
pub data IsSettled (s : IcmpEngine) : Type 0 where
  shut : s.socket ≡ none → s.conn ≡ none → s.interest ≡ none → s.initialized ≡ false → IsSettled s
  open_on :
      (c : IcmpConnection) (writable : Bool)
      → s.socket ≡ some c.fd
      → s.conn ≡ some c
      → s.interest ≡ some writable
      → s.initialized ≡ true
      → IsAtRest c
      → (writable ≡ false → c.tx_queue ≡ [])
      → IsSettled s

pub close-IsSettled : (s : IcmpEngine) → IsSettled (close_connection s)
unfolding close_connection
close-IsSettled s = shut refl refl refl refl

fresh-IsAtRest : (fd : ℕ) → IsAtRest (connect fd)
unfolding connect
fresh-IsAtRest fd = record { read = refl; limit = refl; rx_limit = refl; bounded = omega arith }

pub opening-IsSettled :
    (opened : Option ℕ) (added : Bool) (s : IcmpEngine)
    → s.socket ≡ none
    → s.conn ≡ none
    → s.interest ≡ none
    → s.initialized ≡ false
    → IsSettled (opening opened added s).1
unfolding opening init_socket init_connection registered connect close_connection
opening-IsSettled none added s k c i n = rw (k, c) (shut refl refl i n)
opening-IsSettled (some fd) added s k c i n =
    rw (k, c)
      (if_cases (λ (r : Bool × IcmpEngine). IsSettled r.1) added
        (λ _. open_on (connect fd) false refl refl refl refl (fresh-IsAtRest fd) (λ _. refl))
        (λ _. shut refl refl refl refl))

armed-IsSettled :
    (modified : Bool) (c : IcmpConnection) (s : IcmpEngine)
    → s.socket ≡ some c.fd
    → s.initialized ≡ true
    → IsAtRest c
    → IsSettled (armed modified (true, c) s).1
unfolding armed close_connection
armed-IsSettled modified c s k n i =
    if_cases (λ (r : Bool × IcmpEngine). IsSettled r.1) modified
      (λ _. open_on c true k refl refl n i (λ h. absurd (false≢true (sym h))))
      (λ _. shut refl refl refl refl)

write-IsSettled :
    (modified : Bool) (bytes dst_ip : List ℕ) (c : IcmpConnection) (s : IcmpEngine)
    → s.socket ≡ some c.fd
    → s.conn ≡ some c
    → s.initialized ≡ true
    → IsAtRest c
    → IsSettled s
    → IsSettled (armed modified (write c bytes dst_ip) s).1
unfolding armed write
write-IsSettled modified bytes dst_ip c s k q n i settled =
    let P = λ (r : Bool × IcmpConnection). IsSettled (armed modified r s).1 in
    let same : IsSettled (record s { conn = some c }) =
      subst (λ o. IsSettled (record s { conn = o })) q settled in
    if_cases P (is_empty bytes) (λ _. armed-IsSettled modified c s k n i)
      (λ _.
        if_cases P (is_empty dst_ip) (λ _. same)
          (λ _.
            if_cases P (leb c.tx_queue_limit (length c.tx_queue)) (λ _. same)
              (λ f.
                let frame : TxFrame = record { bytes = bytes; dst_ip = dst_ip } in
                armed-IsSettled modified (record c { tx_queue = c.tx_queue ++ (frame ∷ []) }) s k n
                  (record {
                    read = i.read;
                    limit = i.limit;
                    rx_limit = i.rx_limit;
                    bounded = omega (
                      arith,
                      not_leb→lt c.tx_queue_limit _ f,
                      i.limit,
                      length-append c.tx_queue (frame ∷ []),
                    );
                  }))))

enqueue-IsSettled :
    (modified : Bool) (frame dst_ip : List ℕ) {s : IcmpEngine}
    → IsSettled s
    → IsSettled (enqueue_frame modified frame dst_ip s).1
unfolding enqueue_frame
enqueue-IsSettled modified frame dst_ip {s} (shut k c i n) =
    if_cases (λ (r : Bool × IcmpEngine). IsSettled r.1) (is_empty frame) (λ _. shut k c i n)
      (λ _. rw k (shut k c i n))
enqueue-IsSettled modified frame dst_ip {s} (open_on c w k q t n i h) =
    let settled = open_on c w k q t n i h in
    if_cases (λ (r : Bool × IcmpEngine). IsSettled r.1) (is_empty frame) (λ _. settled)
      (λ _. rw (k, q) (write-IsSettled modified frame dst_ip c s k q n i settled))

pub egress-IsSettled :
    (e : Endian) (modified : Bool) (packet : Option IcmpPacket) (dst_ip : List ℕ) {s : IcmpEngine}
    → IsSettled s
    → IsSettled (egress e modified packet dst_ip s)
unfolding egress
egress-IsSettled e modified none dst_ip i = i
egress-IsSettled e modified (some packet) dst_ip i =
    if_cases IsSettled (is_empty dst_ip) (λ _. i)
      (λ _.
        if_cases IsSettled (is_empty (encode e packet)) (λ _. i)
          (λ _. enqueue-IsSettled modified (encode e packet) dst_ip i))

-- After a call of `send`.
pub after_result-IsSettled :
    (r : IcmpIoResult) (modified : Bool) (c : IcmpConnection) (w : Bool) (s : IcmpEngine)
    → s.socket ≡ some c.fd
    → s.conn ≡ some c
    → s.interest ≡ some w
    → s.initialized ≡ true
    → IsAtRest c
    → (w ≡ false → c.tx_queue ≡ [])
    → (r ≡ ok → c.tx_queue ≡ [])
    → IsSettled (after_result r modified (has_pending c.tx_queue) s)
unfolding after_result has_pending close_connection
after_result-IsSettled ok modified c w s k q t n i h g = rw (g refl) (
    if_cases IsSettled modified (λ _. open_on c false k q refl n i (λ _. g refl))
      (λ _. shut refl refl refl refl))
after_result-IsSettled would_block modified c w s k q t n i h g = open_on c w k q t n i h
after_result-IsSettled buffer_full modified c w s k q t n i h g = open_on c w k q t n i h
after_result-IsSettled peer_closed modified c w s k q t n i h g = shut refl refl refl refl
after_result-IsSettled (error errno) modified c w s k q t n i h g = shut refl refl refl refl

no_length : {A : Type 0} (xs : List A) → length xs ≤ 0 → xs ≡ []
no_length [] h = refl
no_length (x ∷ xs) h = absurd (omega (arith, h))

-- A queue of which a part is left is no longer, and empty if it was.
pub left_fits :
    {is_address : List ℕ → Bool} {answers : List TxAnswer} {queue wire : List TxFrame} {t : Sending}
    → IsSent is_address answers queue wire t
    → (length t.queue ≤ length queue) × (queue ≡ [] → t.queue ≡ [])
left_fits {queue} {t = t} i =
    let l = ap length i.left ∙ length-append i.gone t.queue in
    (omega (arith, l), λ h. no_length t.queue (omega (arith, l, ap length h)))
