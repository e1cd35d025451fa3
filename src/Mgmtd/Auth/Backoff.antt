-- ===== src/Mgmtd/Auth/Backoff.antt =====
-- How long a guesser waits.
use nf_nms.Common.{
  ℕ, zero, suc, ◌-◌, ◌*◌, ◌^◌, ◌≤◌, ◌<◌, ◌≡◌, ap, sym, ◌∙◌, Bool-cases, inl, inr, ltb, not_ltb→le,
  min, arith,
}
use native.Mathlib.Nat.{pow-suc, mul_assoc, mul_comm}
use nf_nms.Mgmtd.Auth.{max_backoff_sec, doubled, backoff}

pow_pos : (k : ℕ) → 1 ≤ 2 ^ k
pow_pos zero = omega arith
pow_pos (suc k) = omega (arith, pow_pos k, pow-suc 2 k)

min_above : (a b : ℕ) → b ≤ a → min a b ≡ b
min_above a b h = omega arith

doubled_lem :
    (k d : ℕ) → 0 < d → min (doubled k d) max_backoff_sec ≡ min (d * 2 ^ k) max_backoff_sec
unfolding doubled
doubled_lem zero d h = omega arith
doubled_lem (suc k) d h = elim (Bool-cases (ltb d max_backoff_sec)) [
  | inl t ↦ rw t (
      doubled_lem k (d * 2) (omega arith)
      ∙ ap (λ n. min n max_backoff_sec)
          (mul_assoc d 2 (2 ^ k) ∙ ap (λ n. d * n) (mul_comm 2 (2 ^ k) ∙ sym (pow-suc 2 k))))
  | inr f ↦ rw f (
      min_above d max_backoff_sec (not_ltb→le _ _ f)
      ∙ sym (
          min_above (d * 2 ^ suc k) max_backoff_sec
            (grind (arith, pow-suc 2 k, pow_pos k, not_ltb→le _ _ f))))
]

-- The doubling comes to 2^(n-6), and to thirty at most.
pub backoff_lem : (failures : ℕ) → backoff failures ≡ min (2 ^ (failures - 6)) 30
unfolding backoff
backoff_lem failures = doubled_lem (failures - 6) 1 (omega arith) ∙ ap (λ n. min n 30) (omega arith)

pub backoff_bounds : (failures : ℕ) → (1 ≤ backoff failures) × (backoff failures ≤ 30)
backoff_bounds failures = omega (arith, backoff_lem failures, pow_pos (failures - 6))
