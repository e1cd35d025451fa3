-- ===== src/Mgmtd/Auth/Runs.antt =====
-- The service over time: what its maps can hold, whatever is asked of it.
use nf_nms.Common.{
  ℕ, ◌+◌, ◌≤◌, ◌<◌, ◌^◌, List, ◌≡◌, refl, ap, sym, ◌∙◌, subst, Option, none, some, Bool, false, not,
  ◌&&◌, ◌||◌, if_cases, Bool-cases, inl, inr, ltb, leb, length, not_leb→lt, leb→le, add_size,
  add_size_lem, arith,
}
use nf_nms.Common.Dict.{
  Dict, bytes_eq, lookup, insert, erase, lookup-insert, lookup-erase, length-insert,
  length-insert-le, length-erase-le, length-erase-lt,
}
use nf_nms.Util.Password.{is_empty}
use nf_nms.Mgmtd.Auth.{
  Session, Throttle, AuthService, Platform, Stored, LoginResult, free_attempts, max_throttled,
  max_backoff_sec, throttled, backoff, count_failure, is_known, generate_session_id, read_account,
  room_for, note_login_failure, verifies, signed_in, login,
}
use nf_nms.Mgmtd.Auth.Sessions.{checked, validate_session, extended, renew_session}
use nf_nms.Mgmtd.Auth.Backoff.{backoff_bounds}

-- What holds of every entry that a key finds.
abbrev pub Each : {V : Type 0} → (V → Type 0) → Dict V → Type 0
Each {V} P m = (k : List ℕ) (v : V) → lookup k m ≡ some v → P v

-- Counted from a time, a session ends within the time to live, the first free attempt of a name
-- comes within half a minute, and the map of throttled names is bounded.
pub record IsTimely (ttl now : ℕ) (s : AuthService) : Type 0 where
  pub ttl_is : s.session_ttl_sec ≡ ttl
  pub sessions_end : Each (λ (x : Session). x.expires_at ≤ now + ttl) s.sessions
  pub waits_end : Each (λ (t : Throttle). t.next_allowed_at ≤ now + max_backoff_sec) s.throttles
  pub few : length s.throttles ≤ max_throttled

-- What is documented of `begin`: it stands at an entry of a map that has one.
pub record IsPlatform (p : Platform) : Type 0 where
  pub begins : (m : Dict Throttle) → 0 < length m → (t : Throttle) × (lookup (p.begin m) m ≡ some t)

module _ {V : Type 0} {P : V → Type 0} where
  Each-insert : (k : List ℕ) (v : V) (m : Dict V) → P v → Each P m → Each P (insert k v m)
  Each-insert k v m pv h j w found =
      let e = sym (lookup-insert k j v m) ∙ found in
      elim (Bool-cases (bytes_eq k j)) [
        | inl t ↦ let q : some v ≡ some w = rw t at e in subst P (cc) pv
        | inr f ↦ h j w (rw f at e)
      ]

  Each-erase : (k : List ℕ) (m : Dict V) → Each P m → Each P (erase k m)
  Each-erase k m h j w found =
      let e = sym (lookup-erase k j m) ∙ found in
      elim (Bool-cases (bytes_eq k j)) [
        | inl t ↦ let q : none ≡ some w = rw t at e in absurd (cc)
        | inr f ↦ h j w (rw f at e)
      ]

-- Time passes.
pub IsTimely-later :
    {ttl now later : ℕ} {s : AuthService} → now ≤ later → IsTimely ttl now s → IsTimely ttl later s
IsTimely-later h i = record {
  ttl_is = i.ttl_is;
  sessions_end = λ k v found. omega (arith, i.sessions_end k v found);
  waits_end = λ k v found. omega (arith, i.waits_end k v found);
  few = i.few;
}

-- The service with other sessions.
abbrev pub resessioned : AuthService → Dict Session → AuthService
resessioned s sessions = record s { sessions = sessions }

resessioned-IsTimely :
    {ttl now : ℕ} {s : AuthService} (sessions : Dict Session)
    → Each (λ (x : Session). x.expires_at ≤ now + ttl) sessions
    → IsTimely ttl now s
    → IsTimely ttl now (resessioned s sessions)
resessioned-IsTimely sessions h i = record {
  ttl_is = i.ttl_is;
  sessions_end = h;
  waits_end = i.waits_end;
  few = i.few;
}

-- Putting a session that starts now.
pub put-IsTimely :
    {ttl now latest : ℕ} {s : AuthService} (id : List ℕ) (session : Session)
    → now ≤ latest
    → now + ttl < 2 ^ 64
    → session.expires_at ≡ add_size now s.session_ttl_sec
    → IsTimely ttl latest s
    → IsTimely ttl latest (resessioned s (insert id session s.sessions))
put-IsTimely {ttl} {now} {s = s} id session past fits e i =
    resessioned-IsTimely (insert id session s.sessions)
      (Each-insert id session s.sessions
        (omega (arith, e, ap (λ t. add_size now t) i.ttl_is, add_size_lem now ttl fits))
        i.sessions_end)
      i

pub drop-IsTimely :
    {ttl latest : ℕ} {s : AuthService} (id : List ℕ)
    → IsTimely ttl latest s
    → IsTimely ttl latest (resessioned s (erase id s.sessions))
drop-IsTimely {s = s} id i =
    resessioned-IsTimely (erase id s.sessions) (Each-erase id s.sessions i.sessions_end) i

-- A failed attempt.
count_failure_bound :
    (now latest : ℕ) (o : Option Throttle)
    → now ≤ latest
    → now + 30 < 2 ^ 64
    → ((t : Throttle) → o ≡ some t → t.next_allowed_at ≤ latest + max_backoff_sec)
    → (count_failure now o).next_allowed_at ≤ latest + max_backoff_sec
unfolding count_failure
count_failure_bound now latest none past fits h = omega arith
count_failure_bound now latest (some t) past fits h =
    let old = h t refl in
    let (_, b) = backoff_bounds (t.failures + 1) in
    let e = add_size_lem now (backoff (t.failures + 1)) (omega arith) in
    if_cases (λ (x : Throttle). x.next_allowed_at ≤ latest + max_backoff_sec)
      (leb (t.failures + 1) free_attempts) (λ _. old) (λ _. omega arith)

module _ (p : Platform) (documented : IsPlatform p) where
  room_for-Each :
      {P : Throttle → Type 0} (username : List ℕ) (m : Dict Throttle)
      → Each P m
      → Each P (room_for p username m)
  unfolding room_for
  room_for-Each {P} username m h =
      if_cases (Each P) (leb max_throttled (length m) && not (is_known (lookup username m)))
        (λ _. Each-erase (p.begin m) m h) (λ _. h)

  few_by :
      (username : List ℕ) (t : Throttle) (m : Dict Throttle) (o : Option Throttle)
      → lookup username m ≡ o
      → length m ≤ max_throttled
      → length (insert username t (room_for p username m)) ≤ max_throttled
  unfolding room_for is_known
  few_by username t m none q h = rw q (elim (Bool-cases (leb max_throttled (length m))) [
    | inl full ↦ rw full (
        let (first, found) = documented.begins m (omega (arith, leb→le _ _ full)) in
        omega (
          arith,
          length-insert-le username t (erase (p.begin m) m),
          length-erase-lt (p.begin m) first m found,
        ))
    | inr room ↦ rw room (omega (arith, length-insert-le username t m, not_leb→lt _ _ room))
  ])
  few_by username t m (some w) q h = rw q (
      if_cases (λ x. length (insert username t x) ≤ max_throttled)
        (leb max_throttled (length m) && false) (λ b. absurd (ground (arith, b)))
        (λ _. omega (arith, length-insert username t w m q)))

  note_login_failure-IsTimely :
      {ttl now latest : ℕ} {s : AuthService} (username : List ℕ)
      → now ≤ latest
      → now + 30 < 2 ^ 64
      → IsTimely ttl latest s
      → IsTimely ttl latest (note_login_failure p now username s)
  unfolding note_login_failure
  note_login_failure-IsTimely {now = now} {latest} {s} username past fits i =
      let m = room_for p username s.throttles in
      let counted = count_failure now (lookup username m) in
      let waits = room_for-Each username s.throttles i.waits_end in
      record {
        ttl_is = i.ttl_is;
        sessions_end = i.sessions_end;
        waits_end =
            Each-insert username counted m
              (count_failure_bound now latest (lookup username m) past fits (waits username)) waits;
        few = few_by username counted s.throttles (lookup username s.throttles) refl i.few;
      }

  signed_in-IsTimely :
      {ttl now latest : ℕ} {s : AuthService} (id : List ℕ) (account : Stored)
      → now ≤ latest
      → now + ttl < 2 ^ 64
      → IsTimely ttl latest s
      → IsTimely ttl latest (signed_in p now id account s).1
  unfolding signed_in
  signed_in-IsTimely {ttl} {latest = latest} id account past fits i =
      if_cases (λ (r : LoginResult × AuthService). IsTimely ttl latest r.1) (is_empty id) (λ _. i)
        (λ _. put-IsTimely id _ past fits refl i)

  pub login-IsTimely :
      {ttl now latest : ℕ} {s : AuthService} (random : Option (List ℕ)) (username password : List ℕ)
      → now ≤ latest
      → now + ttl < 2 ^ 64
      → now + 30 < 2 ^ 64
      → IsTimely ttl latest s
      → IsTimely ttl latest (login p now random username password s).1
  unfolding login
  login-IsTimely {ttl} {now} {latest} {s} random username password past fits wait_fits i =
      let account = read_account p username in
      let Keeps = λ (r : LoginResult × AuthService). IsTimely ttl latest r.1 in
      if_cases Keeps (throttled now username s) (λ _. i)
        (λ _.
          if_cases Keeps (not account.found || is_empty account.password_hash) (λ _. i)
            (λ _.
              if_cases Keeps (verifies p password account)
                (λ _.
                  signed_in-IsTimely (generate_session_id random) account past fits (forgiven i))
                (λ _. note_login_failure-IsTimely username past wait_fits i)))
    where
      forgiven :
          IsTimely ttl latest s
          → IsTimely ttl latest (record s { throttles = erase username s.throttles })
      forgiven i = record {
        ttl_is = i.ttl_is;
        sessions_end = i.sessions_end;
        waits_end = Each-erase username s.throttles i.waits_end;
        few = omega (arith, i.few, length-erase-le username s.throttles);
      }

checked-IsTimely :
    {ttl latest : ℕ} {s : AuthService} (now : ℕ) (id : List ℕ) (o : Option Session)
    → IsTimely ttl latest s
    → IsTimely ttl latest (checked now id o s).1
unfolding checked
checked-IsTimely now id none i = i
checked-IsTimely {ttl} {latest} now id (some session) i =
    if_cases (λ (r : Bool × AuthService). IsTimely ttl latest r.1) (ltb session.expires_at now)
      (λ _. drop-IsTimely id i) (λ _. i)

pub validate-IsTimely :
    {ttl latest : ℕ} {s : AuthService} (now : ℕ) (id : List ℕ)
    → IsTimely ttl latest s
    → IsTimely ttl latest (validate_session now id s).1
unfolding validate_session
validate-IsTimely {ttl} {latest} {s} now id i =
    if_cases (λ (r : Bool × AuthService). IsTimely ttl latest r.1) (is_empty id) (λ _. i)
      (λ _. checked-IsTimely now id (lookup id s.sessions) i)

extended-IsTimely :
    {ttl now latest : ℕ} {s : AuthService} (id : List ℕ) (o : Option Session)
    → now ≤ latest
    → now + ttl < 2 ^ 64
    → IsTimely ttl latest s
    → IsTimely ttl latest (extended now id o s)
unfolding extended
extended-IsTimely id none past fits i = i
extended-IsTimely id (some session) past fits i = put-IsTimely id _ past fits refl i

pub renew-IsTimely :
    {ttl now latest : ℕ} {s : AuthService} (id : List ℕ)
    → now ≤ latest
    → now + ttl < 2 ^ 64
    → IsTimely ttl latest s
    → IsTimely ttl latest (renew_session now id s).1
unfolding renew_session
renew-IsTimely {ttl} {now} {latest} {s} id past fits i =
    if_cases (λ (r : Bool × AuthService). IsTimely ttl latest r.1) (validate_session now id s).0
      (λ _. extended-IsTimely id _ past fits (validate-IsTimely now id i))
      (λ _. validate-IsTimely now id i)
