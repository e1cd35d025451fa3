-- ===== src/Common/Words.antt =====
-- `size_t` and the unsigned words: arithmetic modulo a power of two, written out.
use Prim.Native.Nat.{ℕ, suc, ◌+◌, ◌-◌, ◌%◌, ◌^◌, ◌≤◌, ◌<◌}
use mathlib.Core.Path.{◌≡◌, ap, sym, ◌∙◌}
use mathlib.Core.Logic.{◌⊎◌, inl, inr}
use native.Mathlib.Omega.{arith}
use native.Mathlib.Nat.{mod-eq_of_lt, mod-eq-sub-mod, mod-add-mod}
use native.Mathlib.Decide.{dec_lt}

-- `a + b` on `size_t`
abbrev pub add_size : ℕ → ℕ → ℕ
add_size a b = (a + b) % 2 ^ 64

-- `a - b` on `size_t`, which wraps below zero
abbrev pub sub_size : ℕ → ℕ → ℕ
sub_size a b = (a + 2 ^ 64 - b) % 2 ^ 64

-- A sum below twice the modulus is reduced by at most one subtraction.
pub mod_cases : (n m : ℕ) → n < m + m → ((n < m) × (n % m ≡ n)) ⊎ ((m ≤ n) × (n % m ≡ n - m))
mod_cases n m h = elim (dec_lt n m) [
  | yes p ↦ inl (p, mod-eq_of_lt p)
  | no p ↦ inr (
    omega arith,
    omega (
      arith,
      mod-eq-sub-mod {n = n} {m = m} (omega arith),
      mod-eq_of_lt {n = n - m} {m = m} (omega arith),
    ),
  )
]

pub add_size_lem : (a b : ℕ) → a + b < 2 ^ 64 → add_size a b ≡ a + b
add_size_lem a b h = omega arith

pub sub_size_lem : (a b : ℕ) → b ≤ a → a < 2 ^ 64 → sub_size a b ≡ a - b
sub_size_lem a b h k = omega arith

-- Steps round a ring add up.
pub mod_step : (h s n c : ℕ) → ((h + s) % c + n) % c ≡ (h + (s + n)) % c
mod_step h s n c = mod-add-mod (h + s) c n ∙ ap (λ k. k % c) (omega arith)

pub suc-mod : (h k c : ℕ) → h % c ≡ k % c → suc h % c ≡ suc k % c
suc-mod h k c e =
    ap (λ x. x % c) (omega arith)
    ∙ sym (mod-add-mod h c 1)
    ∙ ap (λ x. (x + 1) % c) e
    ∙ mod-add-mod k c 1
    ∙ ap (λ x. x % c) (omega arith)

pub suc-add : (m n : ℕ) → suc m + n ≡ suc (m + n)
suc-add m n = omega arith

pub add-suc : (m n : ℕ) → m + suc n ≡ suc m + n
add-suc m n = omega arith

pub add-sub_self : (m n : ℕ) → m ≤ n → n ≡ m + (n - m)
add-sub_self m n h = omega arith

pub sub-zero : (n : ℕ) → n ≡ n - 0
sub-zero n = omega arith

pub sub-suc : (m n : ℕ) → m - n ≡ suc m - suc n
sub-suc m n = omega arith
