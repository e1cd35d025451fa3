-- ===== src/Util/Base64/RoundTrip.antt =====
-- What `base64Encode` writes, `base64Decode` reads back.
use nf_nms.Common.{
  dec_lt, Bytes, ℕ, zero, suc, ◌+◌, ◌*◌, ◌/◌, ◌%◌, ◌^◌, ◌<◌, ◌≡◌, refl, ap, ◌∙◌, List, [], ◌∷◌,
  ◌++◌, Option, none, some, Bool, true, false, not, ◌&&◌, ◌==◌, ==_iff, arith,
}
use nf_nms.Util.Base64.{
  char_at, pad, is_pad, base64_encode, value, out_byte, bits_left, decode_loop, base64_decode,
}

-- A test that every digit passes, by evaluation at each.
passes : (ℕ → Bool) → ℕ → Bool
passes test zero = true
passes test (suc bound) = passes test bound && test bound

passes_at : (test : ℕ → Bool) {i bound : ℕ} → i < bound → passes test bound ≡ true → test i ≡ true
unfolding passes
passes_at test {i} {bound = zero} below all = absurd (omega (arith, below))
passes_at test {i} {bound = suc bound} below all = elim (dec_lt i bound) [
  | yes earlier ↦ passes_at test earlier (ground (arith, all))
  | no last ↦ let e : i ≡ bound = omega (arith, below, last) in ap test e ∙ (ground (arith, all))
]

abbrev is_value : Option ℕ → ℕ → Bool
is_value none i = false
is_value (some v) i = v == i

is_value_sound : (o : Option ℕ) (i : ℕ) → is_value o i ≡ true → o ≡ some i
is_value_sound none i h = absurd (ground (arith, h))
is_value_sound (some v) i h = ap some ((==_iff v i).0 h)

values_table : passes (λ i. is_value (value (char_at i)) i) 64 ≡ true
unfolding passes char_at value
values_table = refl

pads_table : passes (λ i. not (is_pad (char_at i))) 64 ≡ true
unfolding passes char_at is_pad
pads_table = refl

not_pad : (i : ℕ) → i < 64 → is_pad (char_at i) ≡ false
not_pad i h = ground (arith, passes_at (λ i. not (is_pad (char_at i))) h pads_table)

-- A digit of the alphabet is read as its value.
decode_digit :
    (buf bits i : ℕ) (chars : List ℕ)
    → i < 64
    → decode_loop buf bits (char_at i ∷ chars)
      ≡ out_byte ((buf * 2 ^ 6 + i) % 2 ^ 32) (bits + 6)
        ++ decode_loop ((buf * 2 ^ 6 + i) % 2 ^ 32) (bits_left (bits + 6)) chars
unfolding decode_loop
decode_digit buf bits i chars h = rw (
  not_pad i h,
  is_value_sound (value (char_at i)) i
      (passes_at (λ i. is_value (value (char_at i)) i) h values_table),
  decode_loop,
)

decode_nil : (buf bits : ℕ) → decode_loop buf bits [] ≡ []
unfolding decode_loop
decode_nil buf bits = refl

decode_pad : (buf bits : ℕ) (chars : List ℕ) → decode_loop buf bits (pad ∷ chars) ≡ []
unfolding decode_loop is_pad
decode_pad buf bits chars = refl

-- The digits of a group, each by the bits that wait before it.
decode_first :
    (buf i : ℕ) (chars : List ℕ)
    → i < 64
    → decode_loop buf 0 (char_at i ∷ chars) ≡ decode_loop ((buf * 2 ^ 6 + i) % 2 ^ 32) 6 chars
unfolding out_byte bits_left
decode_first buf i chars h = decode_digit buf 0 i chars h

decode_second :
    (buf i : ℕ) (chars : List ℕ)
    → i < 64
    → decode_loop buf 6 (char_at i ∷ chars)
      ≡ (buf * 2 ^ 6 + i) % 2 ^ 32 / 2 ^ 4 % 256 ∷ decode_loop ((buf * 2 ^ 6 + i) % 2 ^ 32) 4 chars
unfolding out_byte bits_left
decode_second buf i chars h = decode_digit buf 6 i chars h

decode_third :
    (buf i : ℕ) (chars : List ℕ)
    → i < 64
    → decode_loop buf 4 (char_at i ∷ chars)
      ≡ (buf * 2 ^ 6 + i) % 2 ^ 32 / 2 ^ 2 % 256 ∷ decode_loop ((buf * 2 ^ 6 + i) % 2 ^ 32) 2 chars
unfolding out_byte bits_left
decode_third buf i chars h = decode_digit buf 4 i chars h

decode_fourth :
    (buf i : ℕ) (chars : List ℕ)
    → i < 64
    → decode_loop buf 2 (char_at i ∷ chars)
      ≡ (buf * 2 ^ 6 + i) % 2 ^ 32 / 1 % 256 ∷ decode_loop ((buf * 2 ^ 6 + i) % 2 ^ 32) 0 chars
unfolding out_byte bits_left
decode_fourth buf i chars h = decode_digit buf 2 i chars h

-- The bytes that the digits of a group yield are those of its 24 bits.
first_byte :
    (buf n : ℕ)
    → n < 2 ^ 24
    → ((buf * 2 ^ 6 + n / 2 ^ 18 % 64) % 2 ^ 32 * 2 ^ 6 + n / 2 ^ 12 % 64) % 2 ^ 32 / 2 ^ 4 % 256
      ≡ n / 2 ^ 16
first_byte buf n h = omega arith

second_byte :
    (x n : ℕ)
    → ((x * 2 ^ 6 + n / 2 ^ 12 % 64) % 2 ^ 32 * 2 ^ 6 + n / 2 ^ 6 % 64) % 2 ^ 32 / 2 ^ 2 % 256
      ≡ n / 2 ^ 8 % 256
second_byte x n = omega arith

third_byte :
    (y n : ℕ)
    → ((y * 2 ^ 6 + n / 2 ^ 6 % 64) % 2 ^ 32 * 2 ^ 6 + n % 64) % 2 ^ 32 / 1 % 256 ≡ n % 256
third_byte y n = omega arith

-- The first two digits of a group.
decode_two :
    (buf n : ℕ) (chars : List ℕ)
    → n < 2 ^ 24
    → let y = ((buf * 2 ^ 6 + n / 2 ^ 18 % 64) % 2 ^ 32 * 2 ^ 6 + n / 2 ^ 12 % 64) % 2 ^ 32 in
      decode_loop buf 0 (char_at (n / 2 ^ 18 % 64) ∷ char_at (n / 2 ^ 12 % 64) ∷ chars)
      ≡ n / 2 ^ 16 ∷ decode_loop y 4 chars
decode_two buf n chars h =
    let u = n / 2 ^ 18 % 64 in
    let v = n / 2 ^ 12 % 64 in
    let x = (buf * 2 ^ 6 + u) % 2 ^ 32 in
    decode_first buf u (char_at v ∷ chars) (omega arith)
    ∙ decode_second x v chars (omega arith)
    ∙ ap (λ k. k ∷ decode_loop ((x * 2 ^ 6 + v) % 2 ^ 32) 4 chars) (first_byte buf n h)

decode_three :
    (buf n : ℕ) (chars : List ℕ)
    → n < 2 ^ 24
    → let y = ((buf * 2 ^ 6 + n / 2 ^ 18 % 64) % 2 ^ 32 * 2 ^ 6 + n / 2 ^ 12 % 64) % 2 ^ 32 in
      decode_loop buf 0
        (char_at (n / 2 ^ 18 % 64) ∷ char_at (n / 2 ^ 12 % 64) ∷ char_at (n / 2 ^ 6 % 64) ∷ chars)
      ≡ n / 2 ^ 16 ∷ n / 2 ^ 8 % 256 ∷ decode_loop ((y * 2 ^ 6 + n / 2 ^ 6 % 64) % 2 ^ 32) 2 chars
decode_three buf n chars h =
    let w = n / 2 ^ 6 % 64 in
    let x = (buf * 2 ^ 6 + n / 2 ^ 18 % 64) % 2 ^ 32 in
    let y = (x * 2 ^ 6 + n / 2 ^ 12 % 64) % 2 ^ 32 in
    decode_two buf n (char_at w ∷ chars) h
    ∙ ap (λ r. n / 2 ^ 16 ∷ r) (decode_third y w chars (omega arith))
    ∙ ap (λ k. n / 2 ^ 16 ∷ k ∷ decode_loop ((y * 2 ^ 6 + w) % 2 ^ 32) 2 chars) (second_byte x n)

decode_four :
    (buf n : ℕ) (chars : List ℕ)
    → n < 2 ^ 24
    → (buf' : ℕ) × (decode_loop buf 0 (
          char_at (n / 2 ^ 18 % 64)
          ∷ char_at (n / 2 ^ 12 % 64)
          ∷ char_at (n / 2 ^ 6 % 64)
          ∷ char_at (n % 64)
          ∷ chars)
        ≡ n / 2 ^ 16 ∷ n / 2 ^ 8 % 256 ∷ n % 256 ∷ decode_loop buf' 0 chars)
decode_four buf n chars h =
    let u = n % 64 in
    let y = ((buf * 2 ^ 6 + n / 2 ^ 18 % 64) % 2 ^ 32 * 2 ^ 6 + n / 2 ^ 12 % 64) % 2 ^ 32 in
    let z = (y * 2 ^ 6 + n / 2 ^ 6 % 64) % 2 ^ 32 in
    (
      (z * 2 ^ 6 + u) % 2 ^ 32,
      decode_three buf n (char_at u ∷ chars) h
          ∙ ap (λ r. n / 2 ^ 16 ∷ n / 2 ^ 8 % 256 ∷ r) (decode_fourth z u chars (omega arith))
          ∙ ap
              (λ k.
                n / 2 ^ 16 ∷ n / 2 ^ 8 % 256 ∷ k ∷ decode_loop ((z * 2 ^ 6 + u) % 2 ^ 32) 0 chars)
              (third_byte y n),
    )

-- Each group is read back whatever bits are left of the groups before.
pub decode_loop-base64_encode :
    (buf : ℕ) (bytes : List ℕ) → Bytes bytes → decode_loop buf 0 (base64_encode bytes) ≡ bytes
unfolding base64_encode
decode_loop-base64_encode buf [] h = decode_nil buf 0
decode_loop-base64_encode buf (a ∷ []) h =
    let e : a * 2 ^ 16 / 2 ^ 16 ≡ a = omega arith in
    decode_two buf (a * 2 ^ 16) (pad ∷ pad ∷ []) (omega (arith, h.0))
    ∙ ap (λ r. a * 2 ^ 16 / 2 ^ 16 ∷ r) (decode_pad _ 4 (pad ∷ []))
    ∙ ap (λ r. r ∷ []) e
decode_loop-base64_encode buf (a ∷ b ∷ []) h =
    let n = a * 2 ^ 16 + b * 2 ^ 8 in
    let e : n / 2 ^ 16 ≡ a = omega (arith, h.0, h.1.0) in
    let f : n / 2 ^ 8 % 256 ≡ b = omega (arith, h.0, h.1.0) in
    decode_three buf n (pad ∷ []) (omega (arith, h.0, h.1.0))
    ∙ ap (λ r. n / 2 ^ 16 ∷ n / 2 ^ 8 % 256 ∷ r) (decode_pad _ 2 [])
    ∙ ap (λ r. r ∷ n / 2 ^ 8 % 256 ∷ []) e
    ∙ ap (λ r. a ∷ r ∷ []) f
decode_loop-base64_encode buf (a ∷ b ∷ c ∷ bytes) h =
    let n = a * 2 ^ 16 + b * 2 ^ 8 + c in
    let e : n / 2 ^ 16 ≡ a = omega (arith, h.0, h.1.0, h.1.1.0) in
    let f : n / 2 ^ 8 % 256 ≡ b = omega (arith, h.0, h.1.0, h.1.1.0) in
    let g : n % 256 ≡ c = omega (arith, h.0, h.1.0, h.1.1.0) in
    let (buf', r) = decode_four buf n (base64_encode bytes) (omega (arith, h.0, h.1.0, h.1.1.0)) in
    r
    ∙ ap (λ l. n / 2 ^ 16 ∷ n / 2 ^ 8 % 256 ∷ n % 256 ∷ l)
        (decode_loop-base64_encode buf' bytes h.1.1.1)
    ∙ ap (λ k. k ∷ n / 2 ^ 8 % 256 ∷ n % 256 ∷ bytes) e
    ∙ ap (λ k. a ∷ k ∷ n % 256 ∷ bytes) f
    ∙ ap (λ k. a ∷ b ∷ k ∷ bytes) g

-- Bytes that are encoded are decoded to the same bytes, whatever their number.
pub base64_decode-encode :
    (bytes : List ℕ) → Bytes bytes → base64_decode (base64_encode bytes) ≡ bytes
unfolding base64_decode
base64_decode-encode bytes h = decode_loop-base64_encode 0 bytes h
