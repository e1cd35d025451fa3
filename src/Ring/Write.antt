-- ===== src/Ring/Write.antt =====
-- `ByteRingBuffer::write`, `read` and `peek`: how many bytes move, and which.
use nf_nms.Common.{
  ℕ, zero, suc, ◌+◌, ◌-◌, ◌≤◌, ◌<◌, min, List, ◌++◌, ◌≡◌, refl, ap, sym, ◌∙◌, ◌⊎◌, inl, inr, arith,
  length, take, drop, length-take, length-drop, ltb, ltb→lt, Bool-cases, take-add, append_assoc,
  append-nil, take-ge, length-zero, add_size_lem,
}
use mathlib.Core.Path.{ap₂}
use nf_nms.Ring.{
  ByteRingBuffer, capacity, writable, produce, write_chunk, write_len, write_loop, write,
}
use nf_nms.Ring.Inv.{
  IsValid, tail_in, length-store, writable_lem, write_len_lem, write_chunk-IsValid,
}
use nf_nms.Ring.Contents.{contents, contents-write_chunk}

capacity-write_chunk : (r : ByteRingBuffer) (xs : List ℕ) → capacity (write_chunk r xs) ≡ capacity r
unfolding write_chunk produce
capacity-write_chunk r xs = length-store r.buffer r.tail xs

size-write_chunk :
    {r : ByteRingBuffer} (xs : List ℕ)
    → IsValid r
    → r.size + length xs ≤ capacity r
    → (write_chunk r xs).size ≡ r.size + length xs
unfolding write_chunk produce
size-write_chunk xs v h = add_size_lem _ _ (omega arith)

-- What the loop has done when it stops, started at `r` with `w` bytes written.
pub record Wrote (r : ByteRingBuffer) (bytes : List ℕ) (w : ℕ) (out : ℕ × ByteRingBuffer)
    : Type 0 where
  pub valid : IsValid out.1
  pub room : capacity out.1 ≡ capacity r
  pub count : out.0 ≡ w + min (length bytes) (capacity r - r.size)
  pub queue : contents out.1 ≡ contents r ++ take (capacity r - r.size) bytes

-- What the loop's body copies.
abbrev step : ByteRingBuffer → List ℕ → ℕ
step r bytes = min (write_len r) (length bytes)

abbrev chunk : ByteRingBuffer → List ℕ → List ℕ
chunk r bytes = take (step r bytes) bytes

module _ {r : ByteRingBuffer} (v : IsValid r) (bytes : List ℕ) (w : ℕ) where
  length-chunk : length (chunk r bytes) ≡ step r bytes
  length-chunk = omega (arith, length-take (step r bytes) bytes)

  chunk_fits :
      (r.size + length (chunk r bytes) ≤ capacity r)
      × (r.tail + length (chunk r bytes) ≤ capacity r)
  chunk_fits = omega (arith, length-chunk, write_len_lem v, tail_in v)

  Wrote-stop : (length bytes ≡ 0) ⊎ (writable r ≡ 0) → Wrote r bytes w (w, r)
  Wrote-stop (inl e) = record {
    valid = v;
    room = refl;
    count = omega arith;
    queue =
        sym (append-nil (contents r))
        ∙ ap (λ k. contents r ++ k) (sym (take-ge _ bytes (omega arith) ∙ length-zero bytes e));
  }
  Wrote-stop (inr e) =
      let none_free : 0 ≡ capacity r - r.size = omega (arith, writable_lem v) in
      record {
        valid = v;
        room = refl;
        count = omega (arith, writable_lem v);
        queue = sym (append-nil (contents r)) ∙ ap (λ k. contents r ++ take k bytes) none_free;
      }

  cut :
      (chunk r bytes)
        ++ take (capacity r - (r.size + length (chunk r bytes))) (drop (step r bytes) bytes)
      ≡ take (step r bytes + (capacity r - (r.size + length (chunk r bytes)))) bytes
  cut = sym (take-add (step r bytes) _ bytes)

  total : step r bytes + (capacity r - (r.size + length (chunk r bytes))) ≡ capacity r - r.size
  total = omega (arith, length-chunk, chunk_fits)

  Wrote-step :
      (out : ℕ × ByteRingBuffer)
      → Wrote (write_chunk r (chunk r bytes)) (drop (step r bytes) bytes) (w + step r bytes) out
      → Wrote r bytes w out
  Wrote-step out done = record {
    valid = done.valid;
    room = done.room ∙ capacity-write_chunk r (chunk r bytes);
    count = omega (
      arith,
      capacity-write_chunk r (chunk r bytes),
      size-write_chunk (chunk r bytes) v chunk_fits.0,
      length-drop (step r bytes) bytes,
      length-chunk,
      write_len_lem v,
    );
    queue =
        done.queue
        ∙ ap₂ (λ q k. q ++ take k (drop (step r bytes) bytes))
            (contents-write_chunk (chunk r bytes) v chunk_fits.0 chunk_fits.1)
            (ap₂ ◌-◌ (capacity-write_chunk r (chunk r bytes))
              (size-write_chunk (chunk r bytes) v chunk_fits.0))
        ∙ append_assoc (contents r) (chunk r bytes) _
        ∙ ap (λ q. contents r ++ q) (cut ∙ ap (λ k. take k bytes) total);
  }

write_loop-Wrote :
    (fuel : ℕ) {r : ByteRingBuffer} (bytes : List ℕ) (w : ℕ)
    → IsValid r
    → length bytes < fuel
    → Wrote r bytes w (write_loop fuel r bytes w)
unfolding write_loop
write_loop-Wrote zero bytes w v h = absurd (omega arith)
write_loop-Wrote (suc fuel) {r} bytes w v h = elim (Bool-cases (ltb 0 (length bytes))) [
  | inr e ↦ rw e (Wrote-stop v bytes w (inl (ground arith)))
  | inl e ↦ elim (Bool-cases (ltb 0 (writable r))) [
    | inr f ↦ rw (e, f) (Wrote-stop v bytes w (inr (ground arith)))
    | inl f ↦
        rw (e, f)
          (Wrote-step v bytes w _ (
            write_loop-Wrote fuel _ _ (write_chunk-IsValid _ v (chunk_fits v bytes w).0) (
              omega (
                arith,
                length-drop (step r bytes) bytes,
                write_len_lem v,
                tail_in v,
                writable_lem v,
                ltb→lt 0 (length bytes) e,
                ltb→lt 0 (writable r) f,
              ))))
  ]
]

-- On a valid ring, `write` takes as many bytes as there is room for, appends exactly those in
-- order, and keeps the ring valid and its capacity.
pub write_lem : {r : ByteRingBuffer} (bytes : List ℕ) → IsValid r → Wrote r bytes 0 (write r bytes)
unfolding write
write_lem bytes v = write_loop-Wrote (suc (length bytes)) bytes 0 v (omega arith)
