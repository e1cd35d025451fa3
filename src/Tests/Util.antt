-- ===== src/Tests/Util.antt =====
-- A secret of two bytes under a cipher that hides nothing, and a password whose digest is itself.
use mathlib.Core.Option.{some-injective}
use nf_nms.Common.{
  Bytes, ℕ, List, [], ◌∷◌, ◌≡◌, ◌↔◌, refl, sym, ap, subst, Option, some, true, false, arith, length,
  replicate,
}
use nf_nms.Util.Secret.{master_key, available, encrypt, decrypt, IsGcm, decrypt-encrypt}
use nf_nms.Util.Password.{
  pbkdf2_iterations, is_digits, is_empty, to_hex, hex_of, pbkdf2_hex, legacy_sha256_hex,
  parse_stored, parse_rest, strip, hash_password, verify_password, needs_rehash,
}
use nf_nms.Util.Password.Verify.{IsDecimal, verify_password-hash_password, verify_password_legacy}

abbrev tag : List ℕ
tag = 0 ∷ 0 ∷ 0 ∷ 0 ∷ 0 ∷ 0 ∷ 0 ∷ 0 ∷ 0 ∷ 0 ∷ 0 ∷ 0 ∷ 0 ∷ 0 ∷ 0 ∷ 7 ∷ []

tag-Bytes : Bytes tag
tag-Bytes = (
  omega arith,
  (
    omega arith,
    (
      omega arith,
      (
        omega arith,
        (
          omega arith,
          (
            omega arith,
            (
              omega arith,
              (
                omega arith,
                (
                  omega arith,
                  (
                    omega arith,
                    (
                      omega arith,
                      (omega arith, (omega arith, (omega arith, (omega arith, (omega arith, tt))))),
                    ),
                  ),
                ),
              ),
            ),
          ),
        ),
      ),
    ),
  ),
)

abbrev seal : List ℕ → List ℕ → List ℕ → Option (List ℕ × List ℕ)
seal key nonce plaintext = some (plaintext, tag)

abbrev unseal : List ℕ → List ℕ → List ℕ → List ℕ → Option (List ℕ)
unseal key nonce cipher given = some cipher

seal-IsGcm : IsGcm seal unseal
seal-IsGcm = record {
  tag_size = λ key nonce plaintext cipher given h.
      ap (λ (r : List ℕ × List ℕ). length r.1)
        (sym (some-injective (plaintext, tag) (cipher, given) h));
  sealed_bytes = λ key nonce plaintext cipher given b h.
      let same = some-injective (plaintext, tag) (cipher, given) h in
      (
        subst Bytes (ap (λ (r : List ℕ × List ℕ). r.1) same) tag-Bytes,
        subst Bytes (ap (λ (r : List ℕ × List ℕ). r.0) same) b,
      );
  unseals = λ key nonce plaintext cipher given h.
      ap (λ (r : List ℕ × List ℕ). some r.0)
        (sym (some-injective (plaintext, tag) (cipher, given) h));
}

abbrev key : Option (List ℕ)
key = some (replicate 32 5)

abbrev nonce : List ℕ
nonce = replicate 12 1

nonce-Bytes : Bytes nonce
nonce-Bytes = (
  omega arith,
  (
    omega arith,
    (
      omega arith,
      (
        omega arith,
        (
          omega arith,
          (
            omega arith,
            (
              omega arith,
              (omega arith, (omega arith, (omega arith, (omega arith, (omega arith, tt))))),
            ),
          ),
        ),
      ),
    ),
  ),
)

decrypt-encrypt_example :
    (text : List ℕ) × (encrypt seal unseal key (some nonce) (104 ∷ 105 ∷ []) ≡ some text)
    × (decrypt seal unseal key text ≡ some (104 ∷ 105 ∷ []))
unfolding available master_key
decrypt-encrypt_example =
    decrypt-encrypt seal unseal key nonce (104 ∷ 105 ∷ []) (104 ∷ 105 ∷ []) tag seal-IsGcm refl refl
      nonce-Bytes (omega arith, (omega arith, tt)) refl

abbrev pbkdf2 : List ℕ → List ℕ → ℕ → Option (List ℕ)
pbkdf2 password salt iterations = some password

abbrev sha256 : List ℕ → Option (List ℕ)
sha256 text = some text

-- 210000
abbrev to_string : ℕ → List ℕ
to_string n = 50 ∷ 49 ∷ 48 ∷ 48 ∷ 48 ∷ 48 ∷ []

abbrev atoi : List ℕ → ℕ
atoi text = 210000

decimal : IsDecimal pbkdf2 sha256 to_string atoi
unfolding is_digits is_empty
decimal = record { digits = refl; some_digit = refl; read_back = refl }

verify_password-hash_password_example :
    let stored = hash_password pbkdf2 sha256 to_string atoi (112 ∷ []) (3 ∷ []) in
    ((verify_password pbkdf2 sha256 to_string atoi (113 ∷ []) (3 ∷ []) stored ≡ true) ↔ (
      pbkdf2_hex pbkdf2 sha256 to_string atoi (113 ∷ []) (3 ∷ []) pbkdf2_iterations
      ≡ pbkdf2_hex pbkdf2 sha256 to_string atoi (112 ∷ []) (3 ∷ []) pbkdf2_iterations))
    × (needs_rehash pbkdf2 sha256 to_string atoi stored ≡ false)
unfolding pbkdf2_hex hex_of to_hex is_empty
verify_password-hash_password_example =
    verify_password-hash_password pbkdf2 sha256 to_string atoi (112 ∷ []) (3 ∷ []) (113 ∷ [])
      (3 ∷ []) decimal refl

verify_password_legacy_example :
    ((verify_password pbkdf2 sha256 to_string atoi (112 ∷ []) (3 ∷ []) (97 ∷ 98 ∷ []) ≡ true)
      ↔ (legacy_sha256_hex pbkdf2 sha256 to_string atoi (112 ∷ []) (3 ∷ []) ≡ 97 ∷ 98 ∷ []))
    × (needs_rehash pbkdf2 sha256 to_string atoi (97 ∷ 98 ∷ []) ≡ true)
unfolding is_empty parse_stored parse_rest strip
verify_password_legacy_example =
    verify_password_legacy pbkdf2 sha256 to_string atoi (112 ∷ []) (3 ∷ []) (97 ∷ 98 ∷ []) refl refl
