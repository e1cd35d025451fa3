-- ===== src/Ring/Read.antt =====
-- `ByteRingBuffer::peek` and `read`: they hand out the oldest bytes, in order.
use mathlib.Core.Path.{ap₂}
use nf_nms.Common.{
  ℕ, zero, suc, ◌+◌, ◌-◌, ◌%◌, ◌≤◌, ◌<◌, min, List, [], ◌++◌, ◌≡◌, refl, ap, sym, ◌∙◌, ◌⊎◌, inl,
  inr, true, false, arith, length, take, drop, take-nil, ltb, ltb→lt, Bool-cases, if◌then◌else◌,
  take-add, drop-add, append_assoc, append-nil, take-min, length-zero, drop-nil, mod_cases,
  add-sub_self,
}
use nf_nms.Ring.{ByteRingBuffer, capacity, slice, consume, read_len, read_loop, read, peek}
use nf_nms.Ring.Inv.{IsValid, read_len_lem, consume-IsValid}
use nf_nms.Ring.Contents.{
  contents, length-contents, window, window-add, window-mod, window-slice, window-take,
  contents-consume, slice-head,
}

-- The two pieces that `peek` copies make up the oldest bytes.
window_pieces :
    (buf : List ℕ) (head n first : ℕ)
    → head < length buf
    → n ≤ length buf
    → first ≡ length buf - head
    → first ≤ n
    → window buf (length buf) head n ≡ slice buf head first ++ slice buf 0 (n - first)
window_pieces buf head n first h k e le =
    ap (λ k. window buf (length buf) head k) (add-sub_self first n le)
    ∙ window-add buf (length buf) head first (n - first)
    ∙ ap₂ ◌++◌ (window-slice buf head first (omega arith)) (
        sym (window-mod buf (length buf) (head + first) (n - first))
        ∙ ap (λ i. window buf (length buf) i (n - first)) round
        ∙ window-slice buf 0 (n - first) (omega arith))
  where
    round : (head + first) % length buf ≡ 0
    round = omega (arith, mod_cases (head + first) (length buf) (omega arith))

peek_pieces :
    {r : ByteRingBuffer} (n f : ℕ)
    → IsValid r
    → n ≤ r.size
    → ((f ≡ n) × (r.head + n ≤ capacity r)) ⊎ ((f ≡ capacity r - r.head) × (f < n))
    → slice r.buffer r.head f ++ (if ltb f n then slice r.buffer 0 (n - f) else [])
      ≡ take n (contents r)
peek_pieces {r} n f v h (inl (e, flat)) =
    let t : ltb f n ≡ false = ground arith in
    rw t (append-nil _ ∙ ap (slice r.buffer r.head) e ∙ slice-head n v h flat)
peek_pieces {r} n f v h (inr (e, lt)) =
    let t : ltb f n ≡ true = ground arith in
    rw t (
      sym (window_pieces r.buffer r.head n f v.head_in (omega arith) e (omega arith))
      ∙ sym (window-take r.buffer (capacity r) r.head n r.size h))

-- On a valid ring, `peek` copies the oldest `len` bytes, or all of them if there are fewer,
-- whether or not they go round the end of the buffer.
pub peek_lem : {r : ByteRingBuffer} (len : ℕ) → IsValid r → peek r len ≡ take len (contents r)
unfolding peek
peek_lem {r} len v =
    peek_pieces (min len r.size) _ v (omega arith) (omega arith)
    ∙ take-min len r.size (contents r) (omega (arith, length-contents r))

-- What the loop has done when it stops, started at `r` with `out` copied and `len` still asked for.
pub record Took (r : ByteRingBuffer) (len : ℕ) (out : List ℕ) (end : List ℕ × ByteRingBuffer)
    : Type 0 where
  pub valid : IsValid end.1
  pub room : capacity end.1 ≡ capacity r
  pub bytes : end.0 ≡ out ++ take len (contents r)
  pub queue : contents end.1 ≡ drop len (contents r)

nothing : (len : ℕ) (r : ByteRingBuffer) → (len ≡ 0) ⊎ (r.size ≡ 0) → take len (contents r) ≡ []
nothing len r (inl e) = ap (λ k. take k (contents r)) e
nothing len r (inr e) =
    ap (take len) (length-zero (contents r) (length-contents r ∙ e)) ∙ take-nil len

everything :
    (len : ℕ) (r : ByteRingBuffer) → (len ≡ 0) ⊎ (r.size ≡ 0) → contents r ≡ drop len (contents r)
everything len r (inl e) = ap (λ k. drop k (contents r)) (sym e)
everything len r (inr e) =
    let z : contents r ≡ [] = length-zero (contents r) (length-contents r ∙ e) in
    z ∙ sym (drop-nil len) ∙ ap (drop len) (sym z)

Took-stop :
    {r : ByteRingBuffer} (len : ℕ) (out : List ℕ)
    → IsValid r
    → (len ≡ 0) ⊎ (r.size ≡ 0)
    → Took r len out (out, r)
Took-stop {r} len out v o = record {
  valid = v;
  room = refl;
  bytes = sym (ap (λ k. out ++ k) (nothing len r o) ∙ append-nil out);
  queue = everything len r o;
}

abbrev step : ByteRingBuffer → ℕ → ℕ
step r len = min (read_len r) len

Took-step :
    {r : ByteRingBuffer} (len : ℕ) (out : List ℕ) (end : List ℕ × ByteRingBuffer)
    → IsValid r
    → Took
        (consume r (step r len))
        (len - step r len)
        (out ++ slice r.buffer r.head (step r len))
        end
    → Took r len out end
unfolding consume
Took-step {r} len out end v t = record {
  valid = t.valid;
  room = t.room;
  bytes =
      t.bytes
      ∙ ap₂ (λ s c. (out ++ s) ++ take (len - n) c) (slice-head n v fits flat) rest
      ∙ append_assoc out _ _
      ∙ ap (λ q. out ++ q)
          (sym (take-add n (len - n) (contents r)) ∙ ap (λ k. take k (contents r)) whole);
  queue =
      t.queue
      ∙ ap (drop (len - n)) rest
      ∙ sym (drop-add n (len - n) (contents r))
      ∙ ap (λ k. drop k (contents r)) whole;
}
  where
    n : ℕ
    n = step r len

    fits : n ≤ r.size
    fits = omega (arith, read_len_lem v)

    flat : r.head + n ≤ capacity r
    flat = omega (arith, read_len_lem v)

    whole : n + (len - n) ≡ len
    whole = omega arith

    rest : contents (consume r n) ≡ drop n (contents r)
    rest = contents-consume n v fits

read_loop-Took :
    (fuel : ℕ) {r : ByteRingBuffer} (len : ℕ) (out : List ℕ)
    → IsValid r
    → len < fuel
    → Took r len out (read_loop fuel r len out)
unfolding read_loop
read_loop-Took zero len out v h = absurd (omega arith)
read_loop-Took (suc fuel) {r} len out v h = elim (Bool-cases (ltb 0 len)) [
  | inr e ↦ rw e (Took-stop len out v (inl (ground arith)))
  | inl e ↦ elim (Bool-cases (ltb 0 r.size)) [
    | inr f ↦ rw (e, f) (Took-stop len out v (inr (ground arith)))
    | inl f ↦
        rw (e, f)
          (Took-step len out _ v (
            read_loop-Took fuel _ _ (consume-IsValid _ v (omega (arith, read_len_lem v)))
              (omega (arith, read_len_lem v, ltb→lt 0 len e, ltb→lt 0 r.size f))))
  ]
]

-- On a valid ring, `read` hands out the oldest `len` bytes, or all of them if there are fewer,
-- removes exactly those, and keeps the ring valid and its capacity.
pub read_lem : {r : ByteRingBuffer} (len : ℕ) → IsValid r → Took r len [] (read r len)
unfolding read
read_lem len v = read_loop-Took (suc len) len [] v (omega arith)
