-- ===== src/Mgmtd/Auth/Waits.antt =====
-- What a wrong password costs.
use nf_nms.Common.{
  ℕ, suc, ◌+◌, ◌-◌, ◌^◌, ◌≤◌, ◌<◌, ◌≡◌, refl, ap, sym, ◌∙◌, List, length, Option, none, some, Bool,
  true, false, ◌&&◌, ◌||◌, not, if◌then◌else◌, if_cases, Option-cases, inl, inr, ltb, leb,
  not_ltb→le, min, add_size_lem, arith,
}
use nf_nms.Common.Dict.{Dict, bytes_eq, bytes_eq_refl, lookup, insert, lookup-insert, lookup-erase}
use nf_nms.Util.Password.{is_empty}
use nf_nms.Mgmtd.Auth.{
  Throttle, AuthService, Platform, free_attempts, max_throttled, throttled, backoff, count_failure,
  is_known, read_account, room_for, note_login_failure, verifies, login,
}
use nf_nms.Mgmtd.Auth.Backoff.{backoff_lem, backoff_bounds}

-- How often a name has failed since it last signed in.
pub failures_of : Option Throttle → ℕ
failures_of none = 0
failures_of (some t) = t.failures

-- Until when an entry keeps its name waiting.
blocks : ℕ → Option Throttle → Bool
blocks now none = false
blocks now (some t) = ltb now t.next_allowed_at

throttled_lem :
    (now : ℕ) (username : List ℕ) (s : AuthService)
    → throttled now username s ≡ blocks now (lookup username s.throttles)
unfolding throttled blocks
throttled_lem now username s = elim (Option-cases (lookup username s.throttles)) [
  | inl q ↦ rw (q, throttled)
  | inr (t, q) ↦ rw (q, throttled)
]

-- The wait that a failure starts, by the count of failures.
pub wait_of : ℕ → ℕ
wait_of n = if leb n 5 then 0 else min (2 ^ (n - 6)) 30

wait_of_few : (n : ℕ) → leb n 5 ≡ true → wait_of n ≡ 0
unfolding wait_of
wait_of_few n h = rw h

wait_of_many : (n : ℕ) → leb n 5 ≡ false → wait_of n ≡ backoff n
unfolding wait_of
wait_of_many n h = rw h (sym (backoff_lem n))

over : (later by : ℕ) → by ≤ later → ltb later by ≡ false
over later by h = ground (arith, h)

failure_blocks :
    (now later : ℕ) (o : Option Throttle)
    → blocks now o ≡ false
    → now + 30 < 2 ^ 64
    → now ≤ later
    → ((count_failure now o).failures ≡ suc (failures_of o))
      × (ltb later (count_failure now o).next_allowed_at
          ≡ ltb later (now + wait_of (suc (failures_of o))))
unfolding count_failure failures_of blocks
failure_blocks now later none free fits h =
    let w = wait_of_few 1 refl in
    (refl, over later 0 (omega arith) ∙ sym (over later (now + wait_of 1) (omega (arith, w, h))))
failure_blocks now later (some t) free fits h =
    let n = t.failures + 1 in
    let e : n ≡ suc t.failures = omega arith in
    let Waits = λ (x : Throttle).
      (x.failures ≡ suc t.failures)
      × (ltb later x.next_allowed_at ≡ ltb later (now + wait_of (suc t.failures))) in
    if_cases Waits (leb n free_attempts)
      (λ few.
        let w = ap wait_of (sym e) ∙ wait_of_few n few in
        (
          e,
          over later t.next_allowed_at (omega (arith, not_ltb→le now t.next_allowed_at free, h))
              ∙ sym (over later (now + wait_of (suc t.failures)) (omega (arith, w, h))),
        ))
      (λ many.
        let (_, b) = backoff_bounds n in
        let sum = add_size_lem now (backoff n) (omega (arith, b, fits)) in
        (
          e,
          ap (λ by. ltb later by)
              (sum ∙ ap (λ k. now + k) (sym (wait_of_many n many) ∙ ap wait_of e)),
        ))

module _ (p : Platform) where
  -- Making room takes nothing from a name that is there, and brings none in.
  lookup-room_for :
      (username : List ℕ) (m : Dict Throttle)
      → lookup username (room_for p username m) ≡ lookup username m
  unfolding room_for is_known
  lookup-room_for username m = elim (Option-cases (lookup username m)) [
    | inl q ↦
        if_cases (λ x. lookup username x ≡ lookup username m)
          (leb max_throttled (length m) && not (is_known (lookup username m)))
          (λ _.
            lookup-erase (p.begin m) username m
            ∙ if_cases (λ (o : Option Throttle). o ≡ lookup username m)
                (bytes_eq (p.begin m) username) (λ _. sym q) (λ _. refl))
          (λ _. refl)
    | inr (t, q) ↦
        if_cases (λ x. lookup username x ≡ lookup username m)
          (leb max_throttled (length m) && not (is_known (lookup username m)))
          (λ h.
            let k : is_known (lookup username m) ≡ true = ap is_known q in
            absurd (ground (arith, h, k)))
          (λ _. refl)
  ]

  -- A sign-in to an account that is there, with a wrong password and at a time when the name is not
  -- throttled, counts one more failure in a row. The name is then throttled for as long as that
  -- count asks: not at all up to the fifth, else for 2^(n-6) seconds and thirty at most, if the
  -- clock is not set back and its sums stay below 2^64.
  pub login_failure_waits :
      (now later : ℕ) (random : Option (List ℕ)) (username password : List ℕ) (s : AuthService)
      → throttled now username s ≡ false
      → (read_account p username).found ≡ true
      → is_empty (read_account p username).password_hash ≡ false
      → verifies p password (read_account p username) ≡ false
      → now + 30 < 2 ^ 64
      → now ≤ later
      → let t = (login p now random username password s).1 in
        let n = suc (failures_of (lookup username s.throttles)) in
        (failures_of (lookup username t.throttles) ≡ n)
        × (throttled later username t ≡ ltb later (now + wait_of n))
  unfolding login note_login_failure failures_of blocks
  login_failure_waits now later random username password s free found hashed wrong fits h =
      let m = room_for p username s.throttles in
      let counted = count_failure now (lookup username m) in
      let known : (not (read_account p username).found
            || is_empty (read_account p username).password_hash)
          ≡ false =
        rw (found, hashed) in
      let kept = lookup-room_for username s.throttles in
      let there : lookup username (insert username counted m) ≡ some counted =
        lookup-insert username username counted m ∙ rw (bytes_eq_refl username) in
      let s' : AuthService = record s { throttles = insert username counted m } in
      let reached : (login p now random username password s).1 ≡ s' = rw (free, known, wrong) in
      let now_there = there ∙ ap (λ o. some (count_failure now o)) kept in
      let (count, waits) =
        failure_blocks now later (lookup username s.throttles)
          (sym (throttled_lem now username s) ∙ free) fits h in
      (
        ap (λ (x : AuthService). failures_of (lookup username x.throttles)) reached
            ∙ ap failures_of now_there
            ∙ count,
        ap (λ (x : AuthService). throttled later username x) reached
            ∙ throttled_lem later username s'
            ∙ ap (blocks later) now_there
            ∙ waits,
      )
