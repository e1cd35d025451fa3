-- ===== src/Ipc/Handler/Drain.antt =====
-- `drainRxFrames` on the ring is the cutting of the plain stream that the ring holds: where a
-- frame lies in the buffer makes no difference.
use nf_nms.Common.{
  ℕ, zero, suc, ◌≤◌, ◌<◌, ◌≡◌, List, ◌++◌, some, Bool, true, false, refl, ap, sym, ◌∙◌, subst,
  arith, if◌then◌else◌, leb, length, take, drop, length-take, length-append, leb→le, Bool-cases,
  inl, inr,
}
use nf_nms.Ring
use nf_nms.Ring.{ByteRingBuffer}
use nf_nms.Ring.Inv.{IsValid, consume-IsValid, read_len_lem}
use nf_nms.Ring.Contents.{contents, length-contents, contents-consume, slice-head}
use nf_nms.Ring.Read.{peek_lem}
use nf_nms.Ipc.Codec.{Endian, header_len, encode}
use nf_nms.Ipc.Handler.{Look, wait, reject, frame, look, take_frame, drain_loop, drain_rx_frames}
use nf_nms.Ipc.Handler.Split.{
  look_list, look_list-frame, split, AllSendable, encode_all, give, Accepted, split-encode_all,
  look_list_truncated, length-encode_all,
}
use nf_nms.Ipc.Message.{IpcMessage}
use nf_nms.Ipc.Codec.RoundTrip.{IsSendable}

look-contents :
    (e : Endian) {rx : ByteRingBuffer} → IsValid rx → look e rx ≡ look_list e (contents rx)
unfolding look look_list
look-contents e {rx} v =
    ground (arith, length-contents rx, peek_lem header_len v, length-take header_len (contents rx))

take_frame-contents :
    {rx : ByteRingBuffer} (n : ℕ)
    → IsValid rx
    → n ≤ rx.size
    → take_frame rx n ≡ some (take n (contents rx))
unfolding take_frame
take_frame-contents {rx} n v h = elim (Bool-cases (leb n (Ring.read_len rx))) [
  | inl t ↦ rw t (ap some (slice-head n v h (omega (arith, leb→le _ _ t, read_len_lem v))))
  | inr t ↦ rw t (ground (arith, peek_lem n v, length-take n (contents rx), length-contents rx))
]

module _ {S : Type 0} (e : Endian) (ingress : S → List ℕ → Bool × S) where
  -- The ring ends up holding what the cutting leaves over, with the same verdict and state.
  pub record Drained (out : Bool × ByteRingBuffer × S) (spec : Bool × List ℕ × S) : Type 0 where
    pub valid : IsValid out.1
    pub verdict : out.0 ≡ spec.0
    pub left : contents out.1 ≡ spec.1
    pub state : out.2 ≡ spec.2

  stopped :
      {rx : ByteRingBuffer}
      → IsValid rx
      → (b : Bool) (s : S) → Drained (b, rx, s) (b, contents rx, s)
  stopped v b s = record { valid = v; verdict = refl; left = refl; state = refl }

  both :
      (b : Bool) {x x' : Bool × ByteRingBuffer × S} {y y' : Bool × List ℕ × S}
      → Drained x y
      → Drained x' y'
      → Drained (if b then x else x') (if b then y else y')
  both true h k = h
  both false h k = k

  -- One round, by what stands at the front.
  drain_found :
      (fuel : ℕ) {rx : ByteRingBuffer} (s : S) (l : Look)
      → IsValid rx
      → look e rx ≡ l
      → look_list e (contents rx) ≡ l
      → ((rx' : ByteRingBuffer) (s' : S)
          → IsValid rx'
          → Drained (drain_loop e ingress fuel rx' s') (split e ingress fuel (contents rx') s'))
      → Drained (drain_loop e ingress (suc fuel) rx s) (split e ingress (suc fuel) (contents rx) s)
  unfolding drain_loop split
  drain_found fuel s wait v a b ih = rw (a, drain_loop) (rw (b, split) (stopped v true s))
  drain_found fuel s reject v a b ih = rw (a, drain_loop) (rw (b, split) (stopped v false s))
  drain_found fuel {rx} s (frame n) v a b ih =
      rw (a, drain_loop)
        (rw (b, split)
          (rw (take_frame-contents n v fits)
            (both (ingress s (take n (contents rx))).0 go (stopped v false after))))
    where
      fits : n ≤ rx.size
      fits = omega (arith, look_list-frame e (contents rx) n b, length-contents rx)

      after : S
      after = (ingress s (take n (contents rx))).1

      go :
          Drained
            (drain_loop e ingress fuel (Ring.consume rx n) after)
            (split e ingress fuel (drop n (contents rx)) after)
      go =
          subst
            (λ c.
              Drained (drain_loop e ingress fuel (Ring.consume rx n) after)
                (split e ingress fuel c after))
            (contents-consume n v fits) (ih (Ring.consume rx n) after (consume-IsValid n v fits))

  drain_loop-split :
      (fuel : ℕ) (rx : ByteRingBuffer) (s : S)
      → IsValid rx
      → Drained (drain_loop e ingress fuel rx s) (split e ingress fuel (contents rx) s)
  unfolding drain_loop split
  drain_loop-split zero rx s v = stopped v true s
  drain_loop-split (suc fuel) rx s v =
      drain_found fuel s (look e rx) v refl (sym (look-contents e v)) (drain_loop-split fuel)

  -- On a valid ring, `drainRxFrames` gives the verdict, hands on the frames and leaves the bytes
  -- that cutting the stream of its contents does, wherever in the buffer they lie.
  pub drain_rx_frames-split :
      {rx : ByteRingBuffer} (s : S)
      → IsValid rx
      → Drained (drain_rx_frames e ingress rx s) (split e ingress (suc rx.size) (contents rx) s)
  unfolding drain_rx_frames
  drain_rx_frames-split {rx} s v = drain_loop-split (suc rx.size) rx s v

-- From one host to another: a valid ring that holds the frames of sendable messages, and behind
-- them a frame that has arrived in part, hands exactly those messages' frames to `ingress`, in
-- order, keeps the unfinished one, and stays open, if `ingress` accepts the frames.
pub drain-encode_all :
    {S : Type 0} (e e' : Endian) (ingress : S → List ℕ → Bool × S) {rx : ByteRingBuffer}
    (ms : List IpcMessage) (last : IpcMessage) (n : ℕ) (s : S)
    → IsValid rx
    → AllSendable ms
    → IsSendable last
    → n < length (encode e (some last))
    → Accepted e e' ingress ms s
    → contents rx ≡ encode_all e ms ++ take n (encode e (some last))
    → let (kept, rx', s') = drain_rx_frames e' ingress rx s in
      IsValid rx'
      × (kept ≡ true)
      × (contents rx' ≡ take n (encode e (some last)))
      × (s' ≡ give e e' ingress ms s)
drain-encode_all e e' ingress {rx} ms last n s v sendable last_sendable part accepted held = (
  d.valid,
  d.verdict ∙ ap (λ r. r.0) cut,
  d.left ∙ ap (λ r. r.1) cut,
  d.state ∙ ap (λ r. r.2) cut,
)
  where
    d :
        Drained e' ingress
          (drain_rx_frames e' ingress rx s)
          (split e' ingress (suc rx.size) (contents rx) s)
    d = drain_rx_frames-split e' ingress s v

    enough : length ms < suc rx.size
    enough = omega (
      arith,
      length-contents rx,
      ap length held,
      length-append (encode_all e ms) (take n (encode e (some last))),
      length-encode_all e ms sendable,
    )

    cut :
        split e' ingress (suc rx.size) (contents rx) s
        ≡ (true, take n (encode e (some last)), give e e' ingress ms s)
    cut =
        ap (λ b. split e' ingress (suc rx.size) b s) held
        ∙ split-encode_all e e' ingress (suc rx.size) ms _ s sendable accepted
            (look_list_truncated e e' n last_sendable part) enough
