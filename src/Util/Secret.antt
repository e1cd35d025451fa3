-- ===== src/Util/Secret.antt =====
-- shared/util/Secret.{h,cpp}: secrets at rest. AES-256-GCM of OpenSSL is a parameter: `seal` answers
-- the ciphertext and the tag, `unseal` the plaintext if the tag is right; so are the bytes of
-- RAND_bytes and those of the key's file, `none` where the call fails or the file is not open. Text
-- is a list of bytes, shorter than 2 ^ 31.
use nf_nms.Common.{
  Bytes, Bytes-append, ℕ, ◌+◌, ◌≡◌, refl, ap, ◌∙◌, List, [], ◌++◌, Option, none, some, Bool, true,
  if◌then◌else◌, ltb, ◌==◌, length, take, drop, tests, if_cases, length-append, take-append_eq,
  drop-append_eq, drop-add,
}
use nf_nms.Util.Base64.{base64_encode, base64_decode}
use nf_nms.Util.Base64.RoundTrip.{base64_decode-encode}

abbrev pub key_len : ℕ
key_len = 32

abbrev pub nonce_len : ℕ
nonce_len = 12

abbrev pub tag_len : ℕ
tag_len = 16

unfoldable pub master_key : Option (List ℕ) → List ℕ
master_key none = []
master_key (some file) = if length file == key_len then file else []

unfoldable pub available : Option (List ℕ) → Bool
unfolding master_key
available file = length (master_key file) == key_len

module _ (seal : (key nonce plaintext : List ℕ) → Option (List ℕ × List ℕ))
    (unseal : (key nonce cipher tag : List ℕ) → Option (List ℕ)) where
  -- nonce, tag and ciphertext in one text.
  pub packed : List ℕ → Option (List ℕ × List ℕ) → Option (List ℕ)
  packed nonce none = none
  packed nonce (some (cipher, tag)) = some (base64_encode (nonce ++ (tag ++ cipher)))

  sealed : Option (List ℕ) → Option (List ℕ) → List ℕ → Option (List ℕ)
  unfolding packed master_key
  sealed file none plaintext = none
  sealed file (some nonce) plaintext = packed nonce (seal (master_key file) nonce plaintext)

  unfoldable pub encrypt : Option (List ℕ) → Option (List ℕ) → List ℕ → Option (List ℕ)
  unfolding sealed available
  encrypt file nonce plaintext = if available file then sealed file nonce plaintext else none

  -- The parts of the decoded text, if it is long enough, handed to the cipher.
  unpacked : List ℕ → List ℕ → Option (List ℕ)
  unpacked key blob =
      let cipher = drop (nonce_len + tag_len) blob in
      let plain = unseal key (take nonce_len blob) cipher (take tag_len (drop nonce_len blob)) in
      if ltb (length blob) (nonce_len + tag_len) then none else plain

  unfoldable pub decrypt : Option (List ℕ) → List ℕ → Option (List ℕ)
  unfolding available master_key unpacked
  decrypt file encoded =
      if available file then unpacked (master_key file) (base64_decode encoded) else none

  -- What is documented of the cipher: a tag of 16 bytes, and the plaintext back under the same key
  -- and nonce.
  pub record IsGcm : Type 0 where
    pub tag_size :
        (key nonce plaintext cipher tag : List ℕ)
        → seal key nonce plaintext ≡ some (cipher, tag)
        → length tag ≡ tag_len
    pub sealed_bytes :
        (key nonce plaintext cipher tag : List ℕ)
        → Bytes plaintext
        → seal key nonce plaintext ≡ some (cipher, tag)
        → Bytes tag × Bytes cipher
    pub unseals :
        (key nonce plaintext cipher tag : List ℕ)
        → seal key nonce plaintext ≡ some (cipher, tag)
        → unseal key nonce cipher tag ≡ some plaintext

  blob_parts :
      (nonce tag cipher : List ℕ)
      → length nonce ≡ nonce_len
      → length tag ≡ tag_len
      → let blob = nonce ++ (tag ++ cipher) in
        (take nonce_len blob ≡ nonce)
        × (take tag_len (drop nonce_len blob) ≡ tag)
        × (drop (nonce_len + tag_len) blob ≡ cipher)
  blob_parts nonce tag cipher n t =
      let d = drop-append_eq nonce_len nonce (tag ++ cipher) n in
      (
        take-append_eq nonce_len nonce (tag ++ cipher) n,
        ap (take tag_len) d ∙ take-append_eq tag_len tag cipher t,
        drop-add nonce_len tag_len (nonce ++ (tag ++ cipher))
            ∙ ap (drop tag_len) d
            ∙ drop-append_eq tag_len tag cipher t,
      )

  unpacked_lem :
      (key nonce plaintext cipher tag : List ℕ)
      → length nonce ≡ nonce_len
      → length tag ≡ tag_len
      → unseal key nonce cipher tag ≡ some plaintext
      → unpacked key (nonce ++ (tag ++ cipher)) ≡ some plaintext
  unfolding unpacked
  unpacked_lem key nonce plaintext cipher tag n t u =
      let (p, q, r) = blob_parts nonce tag cipher n t in
      let l = length-append nonce (tag ++ cipher) in
      let m = length-append tag cipher in
      rw (p, q, r, u)
        (if_cases (λ o. o ≡ some plaintext)
          (ltb (length (nonce ++ (tag ++ cipher))) (nonce_len + tag_len))
          (λ h. absurd (omega tests)) (λ _. refl))

  -- With a usable key, a nonce of 12 bytes and a cipher that seals the text of bytes, the secret is
  -- encrypted, and what is stored is decrypted under the same key to the secret.
  pub decrypt-encrypt :
      (file : Option (List ℕ)) (nonce plaintext cipher tag : List ℕ)
      → IsGcm
      → available file ≡ true
      → length nonce ≡ nonce_len
      → Bytes nonce
      → Bytes plaintext
      → seal (master_key file) nonce plaintext ≡ some (cipher, tag)
      → (text : List ℕ) × (encrypt file (some nonce) plaintext ≡ some text)
        × (decrypt file text ≡ some plaintext)
  unfolding encrypt sealed packed decrypt
  decrypt-encrypt file nonce plaintext cipher tag g a n b k s =
      let blob = nonce ++ (tag ++ cipher) in
      let (t, c) = g.sealed_bytes (master_key file) nonce plaintext cipher tag k s in
      let bytes = Bytes-append nonce (tag ++ cipher) b (Bytes-append tag cipher t c) in
      (
        base64_encode blob,
        rw (a, s),
        rw (a, base64_decode-encode blob bytes)
            (unpacked_lem (master_key file) nonce plaintext cipher tag n
              (g.tag_size (master_key file) nonce plaintext cipher tag s)
              (g.unseals (master_key file) nonce plaintext cipher tag s)),
      )
