-- ===== src/Ipc/Handler/Split.antt =====
-- What framing means, on a plain list of bytes: the stream of encoded messages falls into those
-- messages again, whatever their number, and an unfinished frame at its end waits.
use mathlib.Core.Path.{ap₂}
use nf_nms.Common.{
  ℕ, zero, suc, ◌+◌, ◌≤◌, ◌<◌, ◌≡◌, List, [], ◌∷◌, ◌++◌, some, Bool, true, false, refl, ap, sym,
  ◌∙◌, arith, if◌then◌else◌, ltb, length, take, drop, append_assoc, length-append, take-append_eq,
  drop-append_eq, length-take, take-take, append-nil, dec_lt,
}
use nf_nms.Ipc.Message.{IpcMessage}
use nf_nms.Ipc.Codec.{Endian, PeekResult, peek_frame_size, encode, header_len, max_frame_size}
use nf_nms.Ipc.Codec.RoundTrip.{IsSendable, length-encode, peek_frame_size-take}
use nf_nms.Ipc.Handler.{Look, wait, reject, frame, look_size}

-- The front of a stream.
unfoldable pub look_list : Endian → List ℕ → Look
look_list e bytes =
    if ltb (length bytes) header_len
    then wait
    else look_size (length bytes) (peek_frame_size e (some (take header_len bytes)))

look_size-frame :
    (held : ℕ) (r : PeekResult × ℕ) (n : ℕ) → look_size held r ≡ frame n → (0 < n) × (n ≤ held)
unfolding look_size
look_size-frame held (PeekResult.need_more_data, k) n h = ground arith
look_size-frame held (PeekResult.invalid_frame, k) n h = ground arith
look_size-frame held (PeekResult.ok, k) n h = ground arith

-- A frame that is found lies inside the stream.
pub look_list-frame :
    (e : Endian) (bytes : List ℕ) (n : ℕ)
    → look_list e bytes ≡ frame n
    → (0 < n) × (n ≤ length bytes)
unfolding look_list
look_list-frame e bytes n h =
    ground
      (arith, look_size-frame (length bytes) (peek_frame_size e (some (take header_len bytes))) n)

module _ {S : Type 0} (e : Endian) (ingress : S → List ℕ → Bool × S) where
  -- The stream, cut: the result, the bytes left over and the handler's state.
  unfoldable pub split : ℕ → List ℕ → S → Bool × List ℕ × S
  split zero bytes s = (true, bytes, s)
  split (suc fuel) bytes s = elim (look_list e bytes) [
    | wait ↦ (true, bytes, s)
    | reject ↦ (false, bytes, s)
    | frame n ↦
        let (accepted, s') = ingress s (take n bytes) in
        let rest = split fuel (drop n bytes) s' in if accepted then rest else (false, bytes, s')
  ]

-- The size of an encoded message passes the guards.
encode_size :
    (e : Endian) {m : IpcMessage}
    → IsSendable m
    → (header_len ≤ length (encode e (some m))) × (length (encode e (some m)) ≤ max_frame_size)
encode_size e s = omega (arith, length-encode e s)

look_size_held :
    (held n : ℕ)
    → 0 < n
    → n ≤ max_frame_size
    → n ≤ held
    → look_size held (PeekResult.ok, n) ≡ frame n
unfolding look_size
look_size_held held n h k l = ground arith

look_size_partial :
    (held n : ℕ) → 0 < n → n ≤ max_frame_size → held < n → look_size held (PeekResult.ok, n) ≡ wait
unfolding look_size
look_size_partial held n h k l = ground arith

look_list-some :
    (e : Endian) (bytes : List ℕ)
    → header_len ≤ length bytes
    → look_list e bytes
      ≡ look_size (length bytes) (peek_frame_size e (some (take header_len bytes)))
unfolding look_list
look_list-some e bytes h = ground arith

look_list_few : (e : Endian) (bytes : List ℕ) → length bytes < header_len → look_list e bytes ≡ wait
unfolding look_list
look_list_few e bytes h = ground arith

-- At the front of a stream an encoded message is a whole frame.
pub look_list-encode :
    (e e' : Endian) {m : IpcMessage} (rest : List ℕ)
    → IsSendable m
    → look_list e' (encode e (some m) ++ rest) ≡ frame (length (encode e (some m)))
look_list-encode e e' {m} rest s =
    look_list-some e' _ (omega (arith, held, encode_size e s))
    ∙ ap (look_size _) (peek_frame_size-take e e' header_len rest s (omega arith))
    ∙ look_size_held _ _ (omega (arith, encode_size e s)) (encode_size e s).1 (omega (arith, held))
  where
    held : length (encode e (some m) ++ rest) ≡ length (encode e (some m)) + length rest
    held = length-append (encode e (some m)) rest

-- A frame that has arrived in part waits.
pub look_list_truncated :
    (e e' : Endian) {m : IpcMessage} (n : ℕ)
    → IsSendable m
    → n < length (encode e (some m))
    → look_list e' (take n (encode e (some m))) ≡ wait
look_list_truncated e e' {m} n s h = elim (dec_lt n header_len) [
  | yes few ↦ look_list_few e' _ (omega (arith, held))
  | no more ↦
      look_list-some e' _ (omega (arith, held))
      ∙ ap (λ f. look_size (length (take n (encode e (some m)))) (peek_frame_size e' (some f)))
          (take-take header_len n (encode e (some m)) (omega arith)
            ∙ ap (take header_len) (sym (append-nil _)))
      ∙ ap (look_size _) (peek_frame_size-take e e' header_len [] s (omega arith))
      ∙ look_size_partial _ _ (omega (arith, encode_size e s)) (encode_size e s).1
          (omega (arith, held))
]
  where
    held : length (take n (encode e (some m))) ≡ n
    held = omega (arith, length-take n (encode e (some m)))

abbrev pub AllSendable : List IpcMessage → Type 0
AllSendable [] = Unit {0}
AllSendable (m ∷ ms) = IsSendable m × AllSendable ms

abbrev pub encode_all : Endian → List IpcMessage → List ℕ
encode_all e [] = []
encode_all e (m ∷ ms) = encode e (some m) ++ encode_all e ms

pub length-encode_all :
    (e : Endian) (ms : List IpcMessage) → AllSendable ms → length ms ≤ length (encode_all e ms)
length-encode_all e [] s = omega arith
length-encode_all e (m ∷ ms) s = omega (
  arith,
  length-append (encode e (some m)) (encode_all e ms),
  encode_size e s.0,
  length-encode_all e ms s.1,
)

module _ {S : Type 0} (e e' : Endian) (ingress : S → List ℕ → Bool × S) where
  -- The handler's state after it has been given each message's frame, in order.
  abbrev pub give : List IpcMessage → S → S
  give [] s = s
  give (m ∷ ms) s = give ms (ingress s (encode e (some m))).1

  -- Every frame is accepted in the state that it finds.
  abbrev pub Accepted : List IpcMessage → S → Type 0
  Accepted [] s = Unit {0}
  Accepted (m ∷ ms) s =
      ((ingress s (encode e (some m))).0 ≡ true) × Accepted ms (ingress s (encode e (some m))).1

  split_frame :
      (fuel n : ℕ) (bytes : List ℕ) (s : S)
      → look_list e' bytes ≡ frame n
      → (ingress s (take n bytes)).0 ≡ true
      → split e' ingress (suc fuel) bytes s
        ≡ split e' ingress fuel (drop n bytes) (ingress s (take n bytes)).1
  unfolding split
  split_frame fuel n bytes s h k = rw (h, split) (rw k)

  split_wait :
      (fuel : ℕ) (bytes : List ℕ) (s : S)
      → look_list e' bytes ≡ wait
      → split e' ingress (suc fuel) bytes s ≡ (true, bytes, s)
  unfolding split
  split_wait fuel bytes s h = rw (h, split)

  -- A stream of accepted frames is cut into exactly those frames, in order, and the unfinished
  -- rest is left as it is.
  pub split-encode_all :
      (fuel : ℕ) (ms : List IpcMessage) (rest : List ℕ) (s : S)
      → AllSendable ms
      → Accepted ms s
      → look_list e' rest ≡ wait
      → length ms < fuel
      → split e' ingress fuel (encode_all e ms ++ rest) s ≡ (true, rest, give ms s)
  split-encode_all zero ms rest s sendable accepted w h = absurd (omega arith)
  split-encode_all (suc fuel) [] rest s sendable accepted w h = split_wait fuel rest s w
  split-encode_all (suc fuel) (m ∷ ms) rest s sendable accepted w h =
      ap (λ b. split e' ingress (suc fuel) b s) (append_assoc (encode e (some m)) _ rest)
      ∙ split_frame fuel _ _ s (look_list-encode e e' _ sendable.0)
          (ap (λ f. (ingress s f).0) first ∙ accepted.0)
      ∙ ap₂ (λ b f. split e' ingress fuel b (ingress s f).1)
          (drop-append_eq _ (encode e (some m)) _ refl) first
      ∙ split-encode_all fuel ms rest _ sendable.1 accepted.1 w (omega arith)
    where
      first :
          take (length (encode e (some m))) (encode e (some m) ++ (encode_all e ms ++ rest))
          ≡ encode e (some m)
      first = take-append_eq _ (encode e (some m)) (encode_all e ms ++ rest) refl
