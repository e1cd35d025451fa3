-- ===== src/Probed/Sweep/Session.antt =====
-- The targets of a session and the requests that are sent to them.
use Prim.Native.String.{String}
use text.Mathlib.Text.{◌==◌ as str_eq}
use text.Mathlib.TextEquality.{eq_iff}
use mathlib.Core.Option.{some-injective}
use nf_nms.Common.{
  ℕ, zero, suc, ◌+◌, ◌%◌, ◌^◌, ◌≤◌, ◌<◌, min, ◌≡◌, inl, inr, refl, sym, ap, ◌∙◌, List, [], ◌∷◌, map,
  none, some, false, length, get_elem?, set, take, drop, arith, Bool-cases, Option-cases,
  length-map, drop-ge, if◌then◌else◌,
}
use nf_nms.Probed.Sweep.{ProbeTarget, IcmpService, numbered, indexed, find, request, send_loop}

module _ {ℓ κ} {A : Type ℓ} {B : Type κ} where
  pub get_elem?-map-some :
      (f : A → B) (xs : List A) (i : ℕ) (x : A)
      → get_elem? xs i ≡ some x
      → get_elem? (map f xs) i ≡ some (f x)
  get_elem?-map-some f [] i x h = ground (arith, h)
  get_elem?-map-some f (y ∷ xs) zero x h = ap (λ v. some (f v)) (some-injective y x h)
  get_elem?-map-some f (y ∷ xs) (suc i) x h = get_elem?-map-some f xs i x h

  -- A write that the function does not see.
  pub map-set :
      (f : A → B) (xs : List A) (i : ℕ) (x y : A)
      → get_elem? xs i ≡ some x
      → f y ≡ f x
      → map f (set xs i y) ≡ map f xs
  map-set f [] i x y h e = refl
  map-set f (z ∷ xs) zero x y h e = ap (λ v. v ∷ map f xs) (e ∙ ap f (sym (some-injective z x h)))
  map-set f (z ∷ xs) (suc i) x y h e = ap (λ r. f z ∷ r) (map-set f xs i x y h e)

module _ {ℓ} {A : Type ℓ} where
  pub drop-get_elem? :
      (xs : List A) (i : ℕ) (x : A) → get_elem? xs i ≡ some x → drop i xs ≡ x ∷ drop (i + 1) xs
  drop-get_elem? [] i x h = ground (arith, h)
  drop-get_elem? (y ∷ xs) zero x h = ap (λ v. v ∷ xs) (some-injective y x h)
  drop-get_elem? (y ∷ xs) (suc i) x h =
      let e : suc (i + 1) ≡ suc i + 1 = omega arith in
      drop-get_elem? xs i x h ∙ ap (λ n. x ∷ drop n (y ∷ xs)) e

  pub get_elem?-lt : (xs : List A) (i : ℕ) (x : A) → get_elem? xs i ≡ some x → i < length xs
  get_elem?-lt [] i x h = ground (arith, h)
  get_elem?-lt (y ∷ xs) zero x h = omega arith
  get_elem?-lt (y ∷ xs) (suc i) x h = omega (arith, get_elem?-lt xs i x h)

  pub get_elem?-none : (xs : List A) (i : ℕ) → get_elem? xs i ≡ none → length xs ≤ i
  get_elem?-none [] i h = omega arith
  get_elem?-none (y ∷ xs) zero h = ground (arith, h)
  get_elem?-none (y ∷ xs) (suc i) h = omega (arith, get_elem?-none xs i h)

-- The i-th target of a new session has the sequence number i + 1 and has not answered.
pub numbered_lem :
    (k : ℕ) (ips : List String) (i : ℕ) (t : ProbeTarget)
    → get_elem? (numbered k ips) i ≡ some t
    → (t.sequence ≡ (i + k + 1) % 2 ^ 16) × (t.alive ≡ false)
unfolding numbered
numbered_lem k [] i t h = ground (arith, h)
numbered_lem k (ip ∷ ips) zero t h =
    let zero_in : k + 1 ≡ 0 + k + 1 = omega arith in
    let e = some-injective (record { ip = ip; sequence = (k + 1) % 2 ^ 16; alive = false }) t h in
    (
      sym (ap (λ (v : ProbeTarget). v.sequence) e) ∙ ap (λ n. n % 2 ^ 16) zero_in,
      sym (ap (λ (v : ProbeTarget). v.alive) e),
    )
numbered_lem k (ip ∷ ips) (suc i) t h =
    let (q, a) = numbered_lem (k + 1) ips i t h in
    let shift : i + (k + 1) + 1 ≡ suc i + k + 1 = omega arith in (q ∙ ap (λ n. n % 2 ^ 16) shift, a)

-- An index that is found is that of a target with the address.
pub indexed_lem :
    (k : ℕ) (ips : List String) (ip : String) (i : ℕ)
    → find ip (indexed k ips) ≡ some i
    → (j : ℕ) × (i ≡ j + k)
      × ((t : ProbeTarget) × (get_elem? (numbered k ips) j ≡ some t) × (t.ip ≡ ip))
unfolding numbered indexed find
indexed_lem k [] ip i h = ground (arith, h)
indexed_lem k (key ∷ ips) ip i h = elim (Bool-cases (str_eq key ip)) [
  | inl e ↦
      let i_eq =
        some-injective k i
          (sym (ap (λ b. if b then some k else find ip (indexed (k + 1) ips)) e) ∙ h) in
      (
        0,
        omega arith,
        (
          record { ip = key; sequence = (k + 1) % 2 ^ 16; alive = false },
          refl,
          (eq_iff key ip).0 e,
        ),
      )
  | inr e ↦
      let found = sym (ap (λ b. if b then some k else find ip (indexed (k + 1) ips)) e) ∙ h in
      let (j, j_eq, (t, got, named)) = indexed_lem (k + 1) ips ip i found in
      (suc j, omega arith, (t, got, named))
]

-- What the loop sends, and how far it gets.
pub send_loop_lem :
    (n : ℕ) (s : IcmpService)
    → s.next_send_index ≤ length s.targets
    → ((send_loop n s).0
        ≡ record s { next_send_index = min (s.next_send_index + n) (length s.targets) })
      × ((send_loop n s).1 ≡ take n (drop s.next_send_index (map (request s.identifier) s.targets)))
unfolding send_loop
send_loop_lem zero s h =
    let e : s.next_send_index ≡ min (s.next_send_index + 0) (length s.targets) = omega arith in
    (ap (λ k. record s { next_send_index = k }) e, refl)
send_loop_lem (suc n) s h = elim (Option-cases (get_elem? s.targets s.next_send_index)) [
  | inl e ↦
      let l = get_elem?-none s.targets s.next_send_index e in
      let k : s.next_send_index ≡ min (s.next_send_index + suc n) (length s.targets) =
        omega arith in
      let m = length-map s.targets (request s.identifier) in
      let d = drop-ge s.next_send_index (map (request s.identifier) s.targets) (omega arith) in
      (rw (e, send_loop) (ap (λ k. record s { next_send_index = k }) k), rw (e, send_loop, d))
  | inr (t, e) ↦
      let l = get_elem?-lt s.targets s.next_send_index t e in
      let r =
        send_loop_lem n (record s { next_send_index = s.next_send_index + 1 }) (omega arith) in
      let k : min (s.next_send_index + 1 + n) (length s.targets)
          ≡ min (s.next_send_index + suc n) (length s.targets) =
        omega arith in
      let d =
        drop-get_elem? (map (request s.identifier) s.targets) s.next_send_index
          (request s.identifier t)
          (get_elem?-map-some (request s.identifier) s.targets s.next_send_index t e) in
      (
        rw (e, send_loop) (r.0 ∙ ap (λ k. record s { next_send_index = k }) k),
        rw (e, send_loop, d) (ap (λ v. request s.identifier t ∷ v) r.1),
      )
]
