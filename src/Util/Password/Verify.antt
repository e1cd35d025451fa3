-- ===== src/Util/Password/Verify.antt =====
-- What a stored hash accepts.
use nf_nms.Common.{
  ℕ, ◌≡◌, ◌↔◌, refl, ap, ◌∙◌, List, [], ◌∷◌, ◌++◌, Option, none, some, true, false, arith,
}
use nf_nms.Util.Password.{
  pbkdf2_iterations, dollar, prefix, is_empty, constant_time_equals, strip, is_dollar,
  split_at_dollar, is_digits, pbkdf2_hex, legacy_sha256_hex, parse_parts, parse_rest, parse_stored,
  hash_password, accepts, verify_parsed, verify_password, needs_rehash,
}

pub constant_time_equals_iff : (xs ys : List ℕ) → (constant_time_equals xs ys ≡ true) ↔ (xs ≡ ys)
unfolding constant_time_equals
constant_time_equals_iff [] [] = (λ h. refl, λ h. refl)
constant_time_equals_iff [] (y ∷ ys) =
    (λ h. absurd (ground (arith, h)), λ h. absurd (ground (arith, h)))
constant_time_equals_iff (x ∷ xs) [] =
    (λ h. absurd (ground (arith, h)), λ h. absurd (ground (arith, h)))
constant_time_equals_iff (x ∷ xs) (y ∷ ys) =
    let ih = constant_time_equals_iff xs ys in
    (λ h. ground (arith, h, ih), λ h. ground (arith, h, ih))

strip-prefix : (ps text : List ℕ) → strip ps (ps ++ text) ≡ some text
unfolding strip
strip-prefix [] text = refl
strip-prefix (p ∷ ps) text = ground (arith, strip-prefix ps text)

-- Digits hold no `$`.
digit_lem :
    (c : ℕ) (text : List ℕ)
    → is_digits (c ∷ text) ≡ true
    → (is_dollar c ≡ false) × (is_digits text ≡ true)
unfolding is_digits is_dollar
digit_lem c text h = ground (arith, h)

split_digits :
    (digits text : List ℕ)
    → is_digits digits ≡ true
    → split_at_dollar (digits ++ (dollar ∷ text)) ≡ some (digits, text)
unfolding split_at_dollar is_dollar
split_digits [] text h = refl
split_digits (d ∷ digits) text h =
    let (n, r) = digit_lem d digits h in rw (n, split_digits digits text r, split_at_dollar)

module _ (pbkdf2 : (password salt : List ℕ) (iterations : ℕ) → Option (List ℕ))
    (sha256 : List ℕ → Option (List ℕ)) (to_string : ℕ → List ℕ) (atoi : List ℕ → ℕ) where
  -- What is documented of `std::to_string` and `atoi` at the cost.
  pub record IsDecimal : Type 0 where
    pub digits : is_digits (to_string pbkdf2_iterations) ≡ true
    pub some_digit : is_empty (to_string pbkdf2_iterations) ≡ false
    pub read_back : atoi (to_string pbkdf2_iterations) ≡ pbkdf2_iterations

  -- The text that `hashPassword` stores for a digest.
  abbrev stored_of : List ℕ → List ℕ
  stored_of hex = prefix ++ (to_string pbkdf2_iterations ++ (dollar ∷ hex))

  parse-stored_of :
      (hex : List ℕ)
      → IsDecimal
      → is_empty hex ≡ false
      → parse_stored pbkdf2 sha256 to_string atoi (stored_of hex) ≡ some (pbkdf2_iterations, hex)
  unfolding parse_stored parse_rest parse_parts
  parse-stored_of hex d h =
      let rest = to_string pbkdf2_iterations ++ (dollar ∷ hex) in
      ap (parse_rest pbkdf2 sha256 to_string atoi) (strip-prefix prefix rest)
      ∙ ap (parse_parts pbkdf2 sha256 to_string atoi)
          (split_digits (to_string pbkdf2_iterations) hex d.digits)
      ∙ rw (d.some_digit, d.digits, d.read_back, h)

  hash_password_lem :
      (password salt : List ℕ)
      → is_empty (pbkdf2_hex pbkdf2 sha256 to_string atoi password salt pbkdf2_iterations) ≡ false
      → hash_password pbkdf2 sha256 to_string atoi password salt
        ≡ stored_of (pbkdf2_hex pbkdf2 sha256 to_string atoi password salt pbkdf2_iterations)
  unfolding hash_password
  hash_password_lem password salt h = rw h

  accepts_iff :
      (actual expected : List ℕ)
      → is_empty expected ≡ false
      → (accepts pbkdf2 sha256 to_string atoi actual expected ≡ true) ↔ (actual ≡ expected)
  unfolding accepts
  accepts_iff actual expected h =
      let e = constant_time_equals_iff actual expected in
      (λ a. e.0 (ground (arith, a)), λ p. rw (e.1 p, p, h))

  -- A hash that could be derived accepts, at the cost it was stored with, exactly the passwords
  -- and salts whose digest at that cost is the stored one, and asks for no new hash.
  pub verify_password-hash_password :
      (password salt password' salt' : List ℕ)
      → IsDecimal
      → is_empty (pbkdf2_hex pbkdf2 sha256 to_string atoi password salt pbkdf2_iterations) ≡ false
      → let stored = hash_password pbkdf2 sha256 to_string atoi password salt in
        ((verify_password pbkdf2 sha256 to_string atoi password' salt' stored ≡ true) ↔ (
          pbkdf2_hex pbkdf2 sha256 to_string atoi password' salt' pbkdf2_iterations
          ≡ pbkdf2_hex pbkdf2 sha256 to_string atoi password salt pbkdf2_iterations))
        × (needs_rehash pbkdf2 sha256 to_string atoi stored ≡ false)
  unfolding verify_password verify_parsed needs_rehash
  verify_password-hash_password password salt password' salt' d h =
      let hex = pbkdf2_hex pbkdf2 sha256 to_string atoi password salt pbkdf2_iterations in
      rw (hash_password_lem password salt h, parse-stored_of hex d h)
        (
          accepts_iff (pbkdf2_hex pbkdf2 sha256 to_string atoi password' salt' pbkdf2_iterations)
              hex h,
          rw (parse-stored_of hex d h, needs_rehash),
        )

  -- A value of the old form, which does not parse as a hash with a cost, accepts exactly the
  -- passwords and salts whose SHA-256 digest it is, if it is not empty, and asks for a new hash.
  pub verify_password_legacy :
      (password salt stored : List ℕ)
      → is_empty stored ≡ false
      → parse_stored pbkdf2 sha256 to_string atoi stored ≡ none
      → ((verify_password pbkdf2 sha256 to_string atoi password salt stored ≡ true)
          ↔ (legacy_sha256_hex pbkdf2 sha256 to_string atoi password salt ≡ stored))
        × (needs_rehash pbkdf2 sha256 to_string atoi stored ≡ true)
  unfolding verify_password verify_parsed needs_rehash
  verify_password_legacy password salt stored e n =
      rw (e, n)
        (accepts_iff (legacy_sha256_hex pbkdf2 sha256 to_string atoi password salt) stored e, refl)
