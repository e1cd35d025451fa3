-- ===== src/Util/Password.antt =====
-- shared/util/PasswordHash.{h,cpp}: password hashes. Text is a list of character codes. OpenSSL's
-- PBKDF2 and SHA-256 are parameters that answer the digest, `none` where the call fails; so are
-- `std::to_string` and `atoi`, whose result here is 0 where it is not positive.
pub mod Verify
use nf_nms.Common.{
  ℕ, ◌/◌, ◌%◌, List, [], ◌∷◌, ◌++◌, Option, none, some, Bool, true, false, ◌&&◌, not, if◌then◌else◌,
  ltb, leb, ◌==◌, get_or,
}

abbrev pub pbkdf2_iterations : ℕ
pbkdf2_iterations = 210000

-- `$`
abbrev pub dollar : ℕ
dollar = 36

-- `kPrefix`, the text "pbkdf2$".
abbrev pub prefix : List ℕ
prefix = 112 ∷ 98 ∷ 107 ∷ 100 ∷ 102 ∷ 50 ∷ dollar ∷ []

abbrev pub hex_digits : List ℕ
hex_digits = 48 ∷ 49 ∷ 50 ∷ 51 ∷ 52 ∷ 53 ∷ 54 ∷ 55 ∷ 56 ∷ 57 ∷ 97 ∷ 98 ∷ 99 ∷ 100 ∷ 101 ∷ 102 ∷ []

unfoldable pub to_hex : List ℕ → List ℕ
to_hex [] = []
to_hex (x ∷ xs) = get_or hex_digits (x / 16 % 16) 0 ∷ get_or hex_digits (x % 16) 0 ∷ to_hex xs

unfoldable pub is_empty : List ℕ → Bool
is_empty [] = true
is_empty (x ∷ xs) = false

-- `CRYPTO_memcmp` on texts of one length, with the test of the lengths before it.
pub constant_time_equals : List ℕ → List ℕ → Bool
constant_time_equals [] [] = true
constant_time_equals [] (y ∷ ys) = false
constant_time_equals (x ∷ xs) [] = false
constant_time_equals (x ∷ xs) (y ∷ ys) = (x == y) && constant_time_equals xs ys

-- `rfind(kPrefix, 0)`: what follows the prefix, if the text starts with it.
unfoldable pub strip : List ℕ → List ℕ → Option (List ℕ)
strip [] text = some text
strip (p ∷ ps) [] = none
strip (p ∷ ps) (c ∷ text) = let rest = strip ps text in if c == p then rest else none

pub is_dollar : ℕ → Bool
is_dollar c = c == dollar

-- The parts before and after the first `$`.
pub split_at_dollar : List ℕ → Option (List ℕ × List ℕ)
unfolding is_dollar
split_at_dollar [] = none
split_at_dollar (c ∷ text) = elim (is_dollar c) [
  | true ↦ some ([], text)
  | false ↦ elim (split_at_dollar text) [
    | none ↦ none
    | some (before, after) ↦ some (c ∷ before, after)
  ]
]

unfoldable pub is_digits : List ℕ → Bool
is_digits [] = true
is_digits (c ∷ text) = leb 48 c && leb c 57 && is_digits text

module _ (pbkdf2 : (password salt : List ℕ) (iterations : ℕ) → Option (List ℕ))
    (sha256 : List ℕ → Option (List ℕ)) (to_string : ℕ → List ℕ) (atoi : List ℕ → ℕ) where
  unfoldable pub hex_of : Option (List ℕ) → List ℕ
  unfolding to_hex
  hex_of none = []
  hex_of (some digest) = to_hex digest

  unfoldable pub pbkdf2_hex : List ℕ → List ℕ → ℕ → List ℕ
  unfolding hex_of
  pbkdf2_hex password salt iterations =
      if leb iterations 0 then [] else hex_of (pbkdf2 password salt iterations)

  unfoldable pub legacy_sha256_hex : List ℕ → List ℕ → List ℕ
  unfolding hex_of
  legacy_sha256_hex password salt = hex_of (sha256 (password ++ salt))

  -- `parseStored`, from the text after the prefix, its two parts and its cost.
  pub parse_parts : Option (List ℕ × List ℕ) → Option (ℕ × List ℕ)
  unfolding is_empty is_digits
  parse_parts none = none
  parse_parts (some (cost, hex)) =
      if is_empty cost
      then none
      else if not (is_digits cost)
      then none
      else if ltb 0 (atoi cost) && not (is_empty hex)
      then some (atoi cost, hex)
      else none

  unfoldable pub parse_rest : Option (List ℕ) → Option (ℕ × List ℕ)
  unfolding parse_parts split_at_dollar
  parse_rest none = none
  parse_rest (some rest) = parse_parts (split_at_dollar rest)

  unfoldable pub parse_stored : List ℕ → Option (ℕ × List ℕ)
  unfolding parse_rest strip
  parse_stored stored = parse_rest (strip prefix stored)

  unfoldable pub hash_password : List ℕ → List ℕ → List ℕ
  unfolding pbkdf2_hex is_empty
  hash_password password salt =
      let hex = pbkdf2_hex password salt pbkdf2_iterations in
      if is_empty hex then [] else prefix ++ (to_string pbkdf2_iterations ++ (dollar ∷ hex))

  pub accepts : List ℕ → List ℕ → Bool
  unfolding is_empty constant_time_equals
  accepts actual expected = not (is_empty actual) && constant_time_equals actual expected

  pub verify_parsed : List ℕ → List ℕ → List ℕ → Option (ℕ × List ℕ) → Bool
  unfolding accepts pbkdf2_hex legacy_sha256_hex
  verify_parsed password salt stored none = accepts (legacy_sha256_hex password salt) stored
  verify_parsed password salt stored (some (iterations, expected)) =
      accepts (pbkdf2_hex password salt iterations) expected

  unfoldable pub verify_password : List ℕ → List ℕ → List ℕ → Bool
  unfolding verify_parsed parse_stored is_empty
  verify_password password salt stored =
      if is_empty stored then false else verify_parsed password salt stored (parse_stored stored)

  unfoldable pub needs_rehash : List ℕ → Bool
  unfolding parse_stored
  needs_rehash stored = elim (parse_stored stored) [
    | none ↦ true
    | some (iterations, hex) ↦ ltb iterations pbkdf2_iterations
  ]
