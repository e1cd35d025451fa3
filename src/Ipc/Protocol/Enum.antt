-- ===== src/Ipc/Protocol/Enum.antt =====
-- An `enum class` over an unsigned word: every value of the word is one of the type, named or
-- not, so the cast from the word goes through the table of the named values.
use nf_nms.Common.{ℕ, List, [], ◌∷◌, ◌≡◌, ◌∙◌, arith, ◌==◌, if◌then◌else◌, Bool-cases, inl, inr}

module _ {D : Type 0} (code : D → ℕ) (unnamed : ℕ → D) where
  abbrev pub of_table : List (ℕ × D) → ℕ → D
  of_table [] n = unnamed n
  of_table ((k, d) ∷ rest) n = if k == n then d else of_table rest n

  -- Each entry is filed under its own value.
  abbrev pub Filed : List (ℕ × D) → Type 0
  Filed [] = Unit {0}
  Filed ((k, d) ∷ rest) = (code d ≡ k) × Filed rest

  pub code-of_table :
      ((n : ℕ) → code (unnamed n) ≡ n)
      → (table : List (ℕ × D)) (n : ℕ) → Filed table
      → code (of_table table n) ≡ n
  code-of_table h [] n f = h n
  code-of_table h ((k, d) ∷ rest) n f = elim (Bool-cases (k == n)) [
    | inl e ↦ rw e (f.0 ∙ ground arith)
    | inr e ↦ rw e (code-of_table h rest n f.1)
  ]
