-- ===== src/Ring/Inv.antt =====
-- The representation invariant of `ByteRingBuffer`, and that every operation keeps it.
use nf_nms.Common.{
  ℕ, ◌+◌, ◌-◌, ◌%◌, ◌^◌, ◌≤◌, ◌<◌, min, List, [], ◌∷◌, ◌≡◌, refl, ap, ◌∙◌, arith, length, set,
  length-set, length-replicate, add_size, mod_step, sym, add_size_lem, sub_size_lem,
}
use nf_nms.Ring.{
  ByteRingBuffer, init, capacity, writable, write_len, produce, store, write_chunk, read_len,
  consume, clear,
}

-- The tail is where the head arrives after `size` steps round the buffer, and no index or sum
-- leaves its range. A vector's length is below 2 ^ 63.
pub record IsValid (r : ByteRingBuffer) : Type 0 where
  pub some_room : 0 < capacity r
  pub addressable : capacity r < 2 ^ 63
  pub head_in : r.head < capacity r
  pub size_in : r.size ≤ capacity r
  pub tail_at : r.tail ≡ (r.head + r.size) % capacity r

pub tail_in : {r : ByteRingBuffer} → IsValid r → r.tail < capacity r
tail_in v = omega arith

pub length-store : (buf : List ℕ) (at : ℕ) (xs : List ℕ) → length (store buf at xs) ≡ length buf
unfolding store
length-store buf at [] = refl
length-store buf at (x ∷ xs) = length-store (set buf at x) _ xs ∙ length-set buf at x

-- No subtraction of the buffer wraps.
pub writable_lem : {r : ByteRingBuffer} → IsValid r → writable r ≡ capacity r - r.size
writable_lem v = omega arith

pub write_len_lem :
    {r : ByteRingBuffer} → IsValid r → write_len r ≡ min (capacity r - r.tail) (capacity r - r.size)
unfolding write_len
write_len_lem {r} v = ground (arith, tail_in v)

pub read_len_lem : {r : ByteRingBuffer} → IsValid r → read_len r ≡ min (capacity r - r.head) r.size
unfolding read_len
read_len_lem {r} v = ground arith

pub capacity-init : (n : ℕ) → capacity (init n) ≡ n
unfolding init
capacity-init n = length-replicate {A = ℕ} n 0

pub init-IsValid : (n : ℕ) → 0 < n → n < 2 ^ 63 → IsValid (init n)
unfolding init
init-IsValid n h k = record {
  some_room = omega (arith, length-replicate {A = ℕ} n 0);
  addressable = omega (arith, length-replicate {A = ℕ} n 0);
  head_in = omega (arith, length-replicate {A = ℕ} n 0);
  size_in = omega arith;
  tail_at = omega (arith, length-replicate {A = ℕ} n 0);
}

pub produce-IsValid :
    {r : ByteRingBuffer} (n : ℕ) → IsValid r → r.size + n ≤ capacity r → IsValid (produce r n)
unfolding produce
produce-IsValid {r} n v h = record {
  some_room = v.some_room;
  addressable = v.addressable;
  head_in = v.head_in;
  size_in = omega arith;
  tail_at =
      ap (λ k. k % capacity r) (add_size_lem _ _ (omega (arith, tail_in v)))
      ∙ ap (λ t. (t + n) % capacity r) v.tail_at
      ∙ mod_step r.head r.size n (capacity r)
      ∙ ap (λ k. (r.head + k) % capacity r) (sym (add_size_lem _ _ (omega arith)));
}

pub write_chunk-IsValid :
    {r : ByteRingBuffer} (xs : List ℕ)
    → IsValid r
    → r.size + length xs ≤ capacity r
    → IsValid (write_chunk r xs)
unfolding write_chunk
write_chunk-IsValid {r} xs v h =
    produce-IsValid (length xs)
      (record {
        some_room = omega (arith, length-store r.buffer r.tail xs);
        addressable = omega (arith, length-store r.buffer r.tail xs);
        head_in = omega (arith, length-store r.buffer r.tail xs);
        size_in = omega (arith, length-store r.buffer r.tail xs);
        tail_at =
            v.tail_at ∙ ap (λ c. (r.head + r.size) % c) (sym (length-store r.buffer r.tail xs));
      })
      (omega (arith, length-store r.buffer r.tail xs))

pub consume-IsValid : {r : ByteRingBuffer} (n : ℕ) → IsValid r → n ≤ r.size → IsValid (consume r n)
unfolding consume
consume-IsValid {r} n v h = record {
  some_room = v.some_room;
  addressable = v.addressable;
  head_in = omega arith;
  size_in = omega arith;
  tail_at =
      v.tail_at
      ∙ ap (λ k. (r.head + k) % capacity r) (omega arith)
      ∙ sym (mod_step r.head n (r.size - n) (capacity r))
      ∙ ap (λ k. (k % capacity r + (r.size - n)) % capacity r)
          (sym (add_size_lem _ _ (omega arith)))
      ∙ ap (λ k. (add_size r.head n % capacity r + k) % capacity r)
          (sym (sub_size_lem _ _ h (omega arith)));
}

pub clear-IsValid : {r : ByteRingBuffer} → IsValid r → IsValid (clear r)
unfolding clear
clear-IsValid v = omega arith
