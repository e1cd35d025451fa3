-- ===== src/Util/Base64.antt =====
-- `base64Encode` and `base64Decode` of shared/util/Secret.cpp. Bytes and characters are their
-- codes; a `|` of fields that do not overlap is their sum. The decoder's `buf` is an `int`, whose
-- bits are those of a 32-bit word; only its lowest fourteen are ever read.
pub mod RoundTrip
use nf_nms.Common.{
  ℕ, ◌+◌, ◌-◌, ◌*◌, ◌/◌, ◌%◌, ◌^◌, List, [], ◌∷◌, ◌++◌, Option, none, some, Bool, true, false, ◌&&◌,
  if◌then◌else◌, leb, ◌==◌, get_or,
}

-- `kB64`: A to Z, a to z, 0 to 9, + and /.
abbrev pub alphabet : List ℕ
alphabet =
    65 ∷ 66 ∷ 67 ∷ 68 ∷ 69 ∷ 70 ∷ 71 ∷ 72 ∷ 73 ∷ 74 ∷ 75 ∷ 76 ∷ 77 ∷ 78 ∷ 79 ∷ 80 ∷ 81 ∷ 82 ∷ 83
    ∷ 84 ∷ 85 ∷ 86 ∷ 87 ∷ 88 ∷ 89 ∷ 90 ∷ 97 ∷ 98 ∷ 99 ∷ 100 ∷ 101 ∷ 102 ∷ 103 ∷ 104 ∷ 105 ∷ 106
    ∷ 107 ∷ 108 ∷ 109 ∷ 110 ∷ 111 ∷ 112 ∷ 113 ∷ 114 ∷ 115 ∷ 116 ∷ 117 ∷ 118 ∷ 119 ∷ 120 ∷ 121 ∷ 122
    ∷ 48 ∷ 49 ∷ 50 ∷ 51 ∷ 52 ∷ 53 ∷ 54 ∷ 55 ∷ 56 ∷ 57 ∷ 43 ∷ 47 ∷ []

pub char_at : ℕ → ℕ
char_at i = get_or alphabet i 0

-- `=`
abbrev pub pad : ℕ
pad = 61

unfoldable pub base64_encode : List ℕ → List ℕ
unfolding char_at
base64_encode [] = []
base64_encode (a ∷ []) =
    let n = a * 2 ^ 16 in char_at (n / 2 ^ 18 % 64) ∷ char_at (n / 2 ^ 12 % 64) ∷ pad ∷ pad ∷ []
base64_encode (a ∷ b ∷ []) =
    let n = a * 2 ^ 16 + b * 2 ^ 8 in
    char_at (n / 2 ^ 18 % 64) ∷ char_at (n / 2 ^ 12 % 64) ∷ char_at (n / 2 ^ 6 % 64) ∷ pad ∷ []
base64_encode (a ∷ b ∷ c ∷ bytes) =
    let n = a * 2 ^ 16 + b * 2 ^ 8 + c in
    char_at (n / 2 ^ 18 % 64)
    ∷ char_at (n / 2 ^ 12 % 64)
    ∷ char_at (n / 2 ^ 6 % 64)
    ∷ char_at (n % 64)
    ∷ base64_encode bytes

-- `val`, `none` for -1.
pub value : ℕ → Option ℕ
value c =
    if leb 65 c && leb c 90
    then some (c - 65)
    else if leb 97 c && leb c 122
    then some (c - 97 + 26)
    else if leb 48 c && leb c 57
    then some (c - 48 + 52)
    else if c == 43
    then some 62
    else if c == 47
    then some 63
    else none

-- What a digit yields when `bits` bits wait.
pub out_byte : ℕ → ℕ → List ℕ
out_byte buf bits = if leb 8 bits then buf / 2 ^ (bits - 8) % 256 ∷ [] else []

pub bits_left : ℕ → ℕ
bits_left bits = if leb 8 bits then bits - 8 else bits

pub is_pad : ℕ → Bool
is_pad c = c == pad

pub decode_loop : ℕ → ℕ → List ℕ → List ℕ
unfolding value out_byte bits_left is_pad
decode_loop buf bits [] = []
decode_loop buf bits (c ∷ chars) = elim (is_pad c) [
  | true ↦ []
  | false ↦ elim (value c) [
    | none ↦ decode_loop buf bits chars
    | some v ↦
        let buf' = (buf * 2 ^ 6 + v) % 2 ^ 32 in
        out_byte buf' (bits + 6) ++ decode_loop buf' (bits_left (bits + 6)) chars
  ]
]

unfoldable pub base64_decode : List ℕ → List ℕ
unfolding decode_loop
base64_decode chars = decode_loop 0 0 chars
