-- ===== src/Ring/Contents.antt =====
-- A valid `ByteRingBuffer` holds a queue of bytes, oldest first: what writing, reading, peeking
-- and consuming do to that queue.
use nf_nms.Common.{
  ℕ, zero, suc, ◌+◌, ◌-◌, ◌%◌, ◌≤◌, ◌<◌, List, [], ◌∷◌, ◌++◌, ◌≡◌, refl, ap, sym, ◌∙◌, ◌⊎◌, arith,
  length, get_or, set, take, drop, length-set, mod_cases, suc-mod, get_or-set_self, get_or-set_ne,
  drop-cons, add_size_lem, suc-add, add-suc, add-sub_self, take-append_eq, drop-append_eq, subst,
  sub_size_lem,
}
use mathlib.Core.Path.{ap₂}
use native.Mathlib.Nat.{mod-mod, mod-eq_of_lt}
use nf_nms.Ring.{ByteRingBuffer, init, capacity, produce, store, slice, write_chunk, consume, clear}
use nf_nms.Ring.Inv.{IsValid, length-store}

module _ (buf : List ℕ) (cap : ℕ) where
  -- The `n` bytes met from index `h` on, going round at `cap`.
  abbrev pub window : ℕ → ℕ → List ℕ
  window h zero = []
  window h (suc n) = get_or buf (h % cap) 0 ∷ window (suc h) n

  pub length-window : (h n : ℕ) → length (window h n) ≡ n
  length-window h zero = refl
  length-window h (suc n) = ap suc (length-window (suc h) n)

  pub window-add : (h m n : ℕ) → window h (m + n) ≡ window h m ++ window (h + m) n
  window-add h zero n = ap (λ k. window h k) (omega arith) ∙ ap (λ k. window k n) (omega arith)
  window-add h (suc m) n =
      ap (λ k. window h k) (suc-add m n)
      ∙ ap (λ r. get_or buf (h % cap) 0 ∷ r) (window-add (suc h) m n)
      ∙ ap (λ k. window h (suc m) ++ window k n) (sym (add-suc h m))

  -- A window depends on its start modulo the capacity.
  window-cong : (h k n : ℕ) → h % cap ≡ k % cap → window h n ≡ window k n
  window-cong h k zero e = refl
  window-cong h k (suc n) e =
      ap₂ ◌∷◌ (ap (λ i. get_or buf i 0) e) (window-cong (suc h) (suc k) n (suc-mod h k cap e))

  pub window-mod : (h n : ℕ) → window (h % cap) n ≡ window h n
  window-mod h n = window-cong (h % cap) h n (mod-mod h cap)

  pub window-take : (h m n : ℕ) → m ≤ n → take m (window h n) ≡ window h m
  window-take h m n le =
      ap (λ k. take m (window h k)) (add-sub_self m n le)
      ∙ ap (take m) (window-add h m (n - m))
      ∙ take-append_eq m (window h m) (window (h + m) (n - m)) (length-window h m)

  pub window-drop : (h m n : ℕ) → m ≤ n → drop m (window h n) ≡ window (h + m) (n - m)
  window-drop h m n le =
      ap (λ k. drop m (window h k)) (add-sub_self m n le)
      ∙ ap (drop m) (window-add h m (n - m))
      ∙ drop-append_eq m (window h m) (window (h + m) (n - m)) (length-window h m)

abbrev pub contents : ByteRingBuffer → List ℕ
contents r = window r.buffer (capacity r) r.head r.size

pub length-contents : (r : ByteRingBuffer) → length (contents r) ≡ r.size
length-contents r = length-window r.buffer (capacity r) r.head r.size

-- Two buffers that agree on the indices of a window have the same window.
pub window-agree :
    (a b : List ℕ) (cap h n : ℕ)
    → ((i : ℕ) → i < n → get_or a ((h + i) % cap) 0 ≡ get_or b ((h + i) % cap) 0)
    → window a cap h n ≡ window b cap h n
window-agree a b cap h zero e = refl
window-agree a b cap h (suc n) e =
    ap₂ ◌∷◌
      (ap (λ i. get_or a (i % cap) 0) (omega arith)
        ∙ e 0 (omega arith)
        ∙ ap (λ i. get_or b (i % cap) 0) (omega arith))
      (window-agree a b cap (suc h) n λ i lt.
        ap (λ k. get_or a (k % cap) 0) (omega arith)
        ∙ e (suc i) (omega arith)
        ∙ ap (λ k. get_or b (k % cap) 0) (omega arith))

-- Where a window does not go round the end it is a slice.
pub window-slice :
    (buf : List ℕ) (h n : ℕ) → h + n ≤ length buf → window buf (length buf) h n ≡ slice buf h n
window-slice buf h zero le = refl
window-slice buf h (suc n) le =
    ap₂ ◌∷◌ (ap (λ i. get_or buf i 0) (mod-eq_of_lt (omega arith)))
      (window-slice buf (suc h) n (omega arith))
    ∙ ap (take (suc n)) (sym (drop-cons buf h 0 (omega arith)))

-- What a byte of the buffer is after a `memcpy`.
pub get_or-store_out :
    (buf : List ℕ) (at : ℕ) (xs : List ℕ) (j : ℕ)
    → (j < at) ⊎ (at + length xs ≤ j)
    → get_or (store buf at xs) j 0 ≡ get_or buf j 0
unfolding store
get_or-store_out buf at [] j o = refl
get_or-store_out buf at (x ∷ xs) j o =
    get_or-store_out (set buf at x) (suc at) xs j (omega arith)
    ∙ get_or-set_ne buf at j x 0 (omega arith)

pub window-store_in :
    (buf : List ℕ) (cap at : ℕ) (xs : List ℕ)
    → at + length xs ≤ cap
    → cap ≤ length buf
    → window (store buf at xs) cap at (length xs) ≡ xs
unfolding store
window-store_in buf cap at [] h k = refl
window-store_in buf cap at (x ∷ xs) h k =
    ap₂ ◌∷◌
      (ap (λ i. get_or (store (set buf at x) (suc at) xs) i 0) (mod-eq_of_lt (omega arith))
        ∙ get_or-store_out (set buf at x) (suc at) xs at (omega arith)
        ∙ get_or-set_self buf at x 0 (omega arith))
      (window-store_in (set buf at x) cap (suc at) xs (omega arith)
        (omega (arith, length-set buf at x)))

-- The indices of the stored bytes are none of those that a chunk is copied to.
free_index :
    (head size n cap i : ℕ)
    → head < cap
    → size + n ≤ cap
    → (head + size) % cap + n ≤ cap
    → i < size
    → ((head + i) % cap < (head + size) % cap) ⊎ ((head + size) % cap + n ≤ (head + i) % cap)
free_index head size n cap i h k t lt =
    omega (arith, mod_cases (head + i) cap (omega arith), mod_cases (head + size) cap (omega arith))

pub contents-write_chunk :
    {r : ByteRingBuffer} (xs : List ℕ)
    → IsValid r
    → r.size + length xs ≤ capacity r
    → r.tail + length xs ≤ capacity r
    → contents (write_chunk r xs) ≡ contents r ++ xs
unfolding write_chunk produce
contents-write_chunk {r} xs v fits flat =
    ap₂ (λ c n. window after c r.head n) (length-store r.buffer r.tail xs)
      (add_size_lem _ _ (omega arith))
    ∙ window-add after cap r.head r.size (length xs)
    ∙ ap₂ ◌++◌ old new
  where
    cap : ℕ
    cap = capacity r

    after : List ℕ
    after = store r.buffer r.tail xs

    old : window after cap r.head r.size ≡ contents r
    old = window-agree after r.buffer cap r.head r.size λ i lt.
        get_or-store_out r.buffer r.tail xs ((r.head + i) % cap) (
          subst (λ t. ((r.head + i) % cap < t) ⊎ (t + length xs ≤ (r.head + i) % cap))
            (sym v.tail_at)
            (free_index r.head r.size (length xs) cap i v.head_in fits
              (subst (λ t. t + length xs ≤ cap) v.tail_at flat) lt))

    new : window after cap (r.head + r.size) (length xs) ≡ xs
    new =
        sym (window-mod after cap (r.head + r.size) (length xs))
        ∙ ap (λ t. window after cap t (length xs)) (sym v.tail_at)
        ∙ window-store_in r.buffer cap r.tail xs flat (omega arith)

-- Consuming drops the oldest bytes.
pub contents-consume :
    {r : ByteRingBuffer} (n : ℕ)
    → IsValid r
    → n ≤ r.size
    → contents (consume r n) ≡ drop n (contents r)
unfolding consume
contents-consume {r} n v h =
    ap₂ (window r.buffer (capacity r)) (ap (λ k. k % capacity r) (add_size_lem _ _ (omega arith)))
      (sub_size_lem _ _ h (omega arith))
    ∙ window-mod r.buffer (capacity r) (r.head + n) (r.size - n)
    ∙ sym (window-drop r.buffer (capacity r) r.head n r.size h)

-- The oldest bytes, where they do not go round the end, are a slice at the head.
pub slice-head :
    {r : ByteRingBuffer} (n : ℕ)
    → IsValid r
    → n ≤ r.size
    → r.head + n ≤ capacity r
    → slice r.buffer r.head n ≡ take n (contents r)
slice-head {r} n v h k =
    sym (window-slice r.buffer r.head n k)
    ∙ sym (window-take r.buffer (capacity r) r.head n r.size h)

pub contents-init : (n : ℕ) → contents (init n) ≡ []
unfolding init
contents-init n = refl

pub contents-clear : (r : ByteRingBuffer) → contents (clear r) ≡ []
unfolding clear
contents-clear r = refl
