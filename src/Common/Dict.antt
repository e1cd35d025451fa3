-- ===== src/Common/Dict.antt =====
-- Maps whose keys are texts, held as bytes: a list of entries, the first of a key counting.
use nf_nms.Common.{
  ℕ, suc, ◌≤◌, ◌<◌, List, [], ◌∷◌, ◌≡◌, ◌↔◌, refl, Option, none, some, Bool, true, false, ◌&&◌,
  if◌then◌else◌, ◌==◌, length, arith,
}

unfoldable pub bytes_eq : List ℕ → List ℕ → Bool
bytes_eq [] [] = true
bytes_eq [] (y ∷ ys) = false
bytes_eq (x ∷ xs) [] = false
bytes_eq (x ∷ xs) (y ∷ ys) = (x == y) && bytes_eq xs ys

pub bytes_eq_iff : (xs ys : List ℕ) → (bytes_eq xs ys ≡ true) ↔ (xs ≡ ys)
unfolding bytes_eq
bytes_eq_iff [] [] = (λ h. refl, λ h. refl)
bytes_eq_iff [] (y ∷ ys) = (λ h. absurd (ground (arith, h)), λ h. absurd (ground (arith, h)))
bytes_eq_iff (x ∷ xs) [] = (λ h. absurd (ground (arith, h)), λ h. absurd (ground (arith, h)))
bytes_eq_iff (x ∷ xs) (y ∷ ys) =
    let ih = bytes_eq_iff xs ys in (λ h. ground (arith, h, ih), λ h. ground (arith, h, ih))

pub bytes_eq_refl : (xs : List ℕ) → bytes_eq xs xs ≡ true
bytes_eq_refl xs = (bytes_eq_iff xs xs).1 refl

abbrev pub Dict : Type 0 → Type 0
Dict V = List (List ℕ × V)

module _ {V : Type 0} where
  unfoldable pub lookup : List ℕ → Dict V → Option V
  lookup k [] = none
  lookup k ((j, v) ∷ m) = if bytes_eq j k then some v else lookup k m

  -- A key that is there keeps its place.
  unfoldable pub insert : List ℕ → V → Dict V → Dict V
  insert k v [] = (k, v) ∷ []
  insert k v ((j, w) ∷ m) = if bytes_eq j k then (k, v) ∷ m else (j, w) ∷ insert k v m

  -- Every entry of the key goes.
  unfoldable pub erase : List ℕ → Dict V → Dict V
  erase k [] = []
  erase k ((j, w) ∷ m) = if bytes_eq j k then erase k m else (j, w) ∷ erase k m

  pub lookup-insert :
      (k j : List ℕ) (v : V) (m : Dict V)
      → lookup j (insert k v m) ≡ (if bytes_eq k j then some v else lookup j m)
  unfolding lookup insert
  lookup-insert k j v [] = refl
  lookup-insert k j v ((i, w) ∷ m) =
      ground (arith, bytes_eq_iff k j, bytes_eq_iff i k, bytes_eq_iff i j, lookup-insert k j v m)

  pub lookup-erase :
      (k j : List ℕ) (m : Dict V)
      → lookup j (erase k m) ≡ (if bytes_eq k j then none else lookup j m)
  unfolding lookup erase
  lookup-erase k j [] = ground arith
  lookup-erase k j ((i, w) ∷ m) =
      ground (arith, bytes_eq_iff k j, bytes_eq_iff i k, bytes_eq_iff i j, lookup-erase k j m)

  -- A key that is there is not added.
  pub length-insert :
      (k : List ℕ) (v w : V) (m : Dict V) → lookup k m ≡ some w → length (insert k v m) ≡ length m
  unfolding lookup insert
  length-insert k v w [] h = absurd (ground (arith, h))
  length-insert k v w ((j, u) ∷ m) h = ground (arith, length-insert k v w m)

  pub length-insert-le : (k : List ℕ) (v : V) (m : Dict V) → length (insert k v m) ≤ suc (length m)
  unfolding insert
  length-insert-le k v [] = omega arith
  length-insert-le k v ((j, u) ∷ m) = ground (arith, length-insert-le k v m)

  pub length-erase-le : (k : List ℕ) (m : Dict V) → length (erase k m) ≤ length m
  unfolding erase
  length-erase-le k [] = omega arith
  length-erase-le k ((j, u) ∷ m) = ground (arith, length-erase-le k m)

  pub length-erase-lt :
      (k : List ℕ) (v : V) (m : Dict V) → lookup k m ≡ some v → length (erase k m) < length m
  unfolding lookup erase
  length-erase-lt k v [] h = absurd (ground (arith, h))
  length-erase-lt k v ((j, u) ∷ m) h = ground (arith, length-erase-le k m, length-erase-lt k v m)
