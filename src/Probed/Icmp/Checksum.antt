-- ===== src/Probed/Icmp/Checksum.antt =====
-- The Internet checksum of IcmpCodec.cpp.
use nf_nms.Common.{
  Bytes, dec_lt, ℕ, ◌+◌, ◌-◌, ◌*◌, ◌/◌, ◌%◌, ◌^◌, ◌≤◌, ◌<◌, ◌≡◌, refl, ap, ◌∙◌, List, [], ◌∷◌,
  length, arith,
}
use native.Mathlib.Nat.{mod-eq_of_lt}
use nf_nms.Ipc.Codec.{Endian, big, word16}
use nf_nms.Ipc.Codec.Order.{net16-word16}
use nf_nms.Probed.Icmp.{sum_words, fold_carries, calculate_checksum}

-- The sum of the words in network order, without a limit.
abbrev pub word_sum : List ℕ → ℕ
word_sum [] = 0
word_sum (a ∷ []) = a * 256
word_sum (a ∷ b ∷ bytes) = a * 256 + b + word_sum bytes

pub word_sum_le : (bytes : List ℕ) → Bytes bytes → 2 * word_sum bytes ≤ 65535 * (length bytes + 1)
word_sum_le [] h = omega arith
word_sum_le (a ∷ []) h = omega (arith, h.0)
word_sum_le (a ∷ b ∷ bytes) h = omega (arith, h.0, h.1.0, word_sum_le bytes h.1.1)

-- On words that fit 32 bits together, the loop adds them up, on either host.
word16_big : (a b : ℕ) → word16 big a b ≡ a * 256 + b
unfolding word16
word16_big a b = refl

pub sum_words_lem :
    (e : Endian) (sum : ℕ) (bytes : List ℕ)
    → Bytes bytes
    → sum + word_sum bytes < 2 ^ 32
    → sum_words e sum bytes ≡ sum + word_sum bytes
unfolding sum_words
sum_words_lem e sum [] h k = omega arith
sum_words_lem e sum (a ∷ []) h k = mod-eq_of_lt k
sum_words_lem e sum (a ∷ b ∷ bytes) h k =
    ap (λ v. sum_words e v bytes)
      (ap (λ v. (sum + v) % 2 ^ 32) (net16-word16 e a b h.0 h.1.0)
        ∙ ap (λ v. (sum + v) % 2 ^ 32) (word16_big a b)
        ∙ mod-eq_of_lt {n = sum + (a * 256 + b)} {m = 2 ^ 32} (omega arith))
    ∙ sum_words_lem e (sum + (a * 256 + b)) bytes h.1.1 (omega arith)
    ∙ (omega arith)

-- Two rounds leave no carry, and what is left agrees with the sum up to a multiple of 65535.
pub fold_carries_lem :
    (s : ℕ)
    → s < 2 ^ 32
    → (k : ℕ) × (s ≡ fold_carries 2 s + 65535 * k) × (fold_carries 2 s < 2 ^ 16)
unfolding fold_carries
fold_carries_lem s h = elim (dec_lt 0 (s / 2 ^ 16)) [
  | no n ↦ (0, ground arith, ground arith)
  | yes y ↦ elim (dec_lt 0 ((s % 2 ^ 16 + s / 2 ^ 16) / 2 ^ 16)) [
    | no n ↦ (s / 2 ^ 16, ground arith, ground arith)
    | yes z ↦ (s / 2 ^ 16 + 1, ground arith, ground arith)
  ]
]

fold_carries-pos : (s : ℕ) → 0 < s → 0 < fold_carries 2 s
unfolding fold_carries
fold_carries-pos s h = elim (dec_lt 0 (s / 2 ^ 16)) [
  | no n ↦ ground arith
  | yes y ↦ elim (dec_lt 0 ((s % 2 ^ 16 + s / 2 ^ 16) / 2 ^ 16)) [
    | no n ↦ ground arith
    | yes z ↦ ground arith
  ]
]

-- A sum to which the complement of its fold is added folds to 65535.
pub fold_carries-complement :
    (s : ℕ) → s + 65535 < 2 ^ 32 → fold_carries 2 (s + (65535 - fold_carries 2 s)) ≡ 65535
fold_carries-complement s h =
    let (k, e, l) = fold_carries_lem s (omega arith) in
    let (j, f, m) = fold_carries_lem (s + (65535 - fold_carries 2 s)) (omega arith) in
    let p = fold_carries-pos (s + (65535 - fold_carries 2 s)) (omega arith) in omega arith

pub calculate_checksum_lem :
    (e : Endian) (bytes : List ℕ)
    → Bytes bytes
    → word_sum bytes < 2 ^ 32
    → calculate_checksum e bytes ≡ 65535 - fold_carries 2 (word_sum bytes)
unfolding calculate_checksum
calculate_checksum_lem e bytes h k =
    let (j, f, l) = fold_carries_lem (word_sum bytes) k in
    let q : sum_words e 0 bytes ≡ word_sum bytes =
      omega (arith, sum_words_lem e 0 bytes h (omega arith)) in
    ap (λ v. (2 ^ 32 - 1 - fold_carries 2 v) % 2 ^ 16) q ∙ (omega arith)
