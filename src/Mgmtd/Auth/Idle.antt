-- ===== src/Mgmtd/Auth/Idle.antt =====
-- Runs of the service, and the sessions that nobody renews.
use nf_nms.Common.{
  ℕ, ◌+◌, ◌≤◌, ◌<◌, ◌^◌, List, [], ◌≡◌, refl, sym, ◌∙◌, Option, none, some, Bool, false, ◌||◌, not,
  if_cases, Bool-cases, Option-cases, inl, inr, ltb, lt→ltb, max, arith,
}
use nf_nms.Common.Dict.{Dict, bytes_eq, lookup, insert, erase, lookup-insert, lookup-erase}
use nf_nms.Util.Password.{is_empty}
use nf_nms.Mgmtd.Auth.{
  Session, AuthService, Platform, LoginResult, throttled, generate_session_id, read_account,
  note_login_failure, verifies, signed_in, login, create_sso_session,
}
use nf_nms.Mgmtd.Auth.Sessions.{live, checked, validate_session, extended, renew_session, logout}
use nf_nms.Mgmtd.Auth.Runs.{
  IsTimely, IsPlatform, IsTimely-later, login-IsTimely, validate-IsTimely, renew-IsTimely,
  drop-IsTimely, put-IsTimely,
}

-- What the web interface asks of the service, with the random bytes that come up.
pub data Request : Type 0 where
  sign_in : Option (List ℕ) → (username password : List ℕ) → Request
  sign_in_sso : Option (List ℕ) → List ℕ → Request
  check keep_alive sign_out : List ℕ → Request

unfoldable pub perform : Platform → ℕ → Request → AuthService → AuthService
perform p now (sign_in random username password) s = (login p now random username password s).1
perform p now (sign_in_sso random username) s = (create_sso_session p now random username s).1
perform p now (check id) s = (validate_session now id s).1
perform p now (keep_alive id) s = (renew_session now id s).1
perform p now (sign_out id) s = logout id s

abbrev pub opened : ℕ → AuthService
opened ttl = record { sessions = []; throttles = []; loaded = false; session_ttl_sec = ttl }

-- The states that a service reaches, with the latest time that its clock has shown. The clock may
-- be set back; its sums do not overflow.
pub data Run (ttl : ℕ) : ℕ → AuthService → Type 0 where
  started : Run ttl 0 (opened ttl)
  asked :
      {latest : ℕ} {s : AuthService} (p : Platform) (now : ℕ) (request : Request)
      → IsPlatform p
      → now + ttl < 2 ^ 64
      → now + 30 < 2 ^ 64
      → Run ttl latest s
      → Run ttl (max latest now) (perform p now request s)

perform-IsTimely :
    (p : Platform) {ttl now latest : ℕ} {s : AuthService} (request : Request)
    → IsPlatform p
    → now ≤ latest
    → now + ttl < 2 ^ 64
    → now + 30 < 2 ^ 64
    → IsTimely ttl latest s
    → IsTimely ttl latest (perform p now request s)
unfolding perform create_sso_session logout
perform-IsTimely p (sign_in random username password) documented past fits wait_fits i =
    login-IsTimely p documented random username password past fits wait_fits i
perform-IsTimely p (sign_in_sso random username) documented past fits wait_fits i =
    put-IsTimely (generate_session_id random) _ past fits refl i
perform-IsTimely p {now = now} (check id) documented past fits wait_fits i =
    validate-IsTimely now id i
perform-IsTimely p (keep_alive id) documented past fits wait_fits i = renew-IsTimely id past fits i
perform-IsTimely p (sign_out id) documented past fits wait_fits i = drop-IsTimely id i

opened-IsTimely : (ttl : ℕ) → IsTimely ttl 0 (opened ttl)
unfolding lookup
opened-IsTimely ttl = record {
  ttl_is = refl;
  sessions_end = λ k v found. absurd (ground (arith, found));
  waits_end = λ k v found. absurd (ground (arith, found));
  few = omega arith;
}

-- In every run, whatever is asked and even if the clock is set back, at most 64 names are throttled;
-- and counted from the latest time that the clock has shown, a throttled name may try again within
-- 30 seconds and every session ends within the time to live. The sums of times stay below 2^64,
-- and `begin` stands at an entry of a map that has one.
pub Run-IsTimely : {ttl latest : ℕ} {s : AuthService} → Run ttl latest s → IsTimely ttl latest s
Run-IsTimely {ttl} started = opened-IsTimely ttl
Run-IsTimely (asked {latest} p now request documented fits wait_fits run) =
    perform-IsTimely p request documented (omega arith) fits wait_fits
      (IsTimely-later (omega arith) (Run-IsTimely run))

-- Requests that neither renew a session nor come upon its identifier anew.
abbrev pub Spares : List ℕ → Request → Type 0
Spares id (sign_in random username password) = bytes_eq (generate_session_id random) id ≡ false
Spares id (sign_in_sso random username) = bytes_eq (generate_session_id random) id ≡ false
Spares id (check j) = Unit {0}
Spares id (keep_alive j) = bytes_eq j id ≡ false
Spares id (sign_out j) = Unit {0}

-- Any number of such requests, at any times.
pub data Quiet (id : List ℕ) (s : AuthService) : AuthService → Type 0 where
  here : Quiet id s s
  next :
      {t : AuthService} (p : Platform) (now : ℕ) (request : Request)
      → Spares id request
      → Quiet id s t
      → Quiet id s (perform p now request t)

-- The session, if it is there, ends by a time.
abbrev EndsBy : List ℕ → ℕ → Dict Session → Type 0
EndsBy id bound m = (x : Session) → lookup id m ≡ some x → x.expires_at ≤ bound

insert-EndsBy :
    (id : List ℕ) (bound : ℕ) (j : List ℕ) (x : Session) (m : Dict Session)
    → bytes_eq j id ≡ false
    → EndsBy id bound m
    → EndsBy id bound (insert j x m)
insert-EndsBy id bound j x m other h y found =
    let e = sym (lookup-insert j id x m) ∙ found in h y (rw other at e)

erase-EndsBy :
    (id : List ℕ) (bound : ℕ) (j : List ℕ) (m : Dict Session)
    → EndsBy id bound m
    → EndsBy id bound (erase j m)
erase-EndsBy id bound j m h y found =
    let e = sym (lookup-erase j id m) ∙ found in
    elim (Bool-cases (bytes_eq j id)) [
      | inl t ↦ let q : none ≡ some y = rw t at e in absurd (cc)
      | inr f ↦ h y (rw f at e)
    ]

checked-EndsBy :
    (id : List ℕ) (bound now : ℕ) (j : List ℕ) (o : Option Session) (s : AuthService)
    → EndsBy id bound s.sessions
    → EndsBy id bound (checked now j o s).1.sessions
unfolding checked
checked-EndsBy id bound now j none s h = h
checked-EndsBy id bound now j (some session) s h =
    if_cases (λ (r : Bool × AuthService). EndsBy id bound r.1.sessions) (ltb session.expires_at now)
      (λ _. erase-EndsBy id bound j s.sessions h) (λ _. h)

validate-EndsBy :
    (id : List ℕ) (bound now : ℕ) (j : List ℕ) (s : AuthService)
    → EndsBy id bound s.sessions
    → EndsBy id bound (validate_session now j s).1.sessions
unfolding validate_session
validate-EndsBy id bound now j s h =
    if_cases (λ (r : Bool × AuthService). EndsBy id bound r.1.sessions) (is_empty j) (λ _. h)
      (λ _. checked-EndsBy id bound now j (lookup j s.sessions) s h)

extended-EndsBy :
    (id : List ℕ) (bound now : ℕ) (j : List ℕ) (o : Option Session) (s : AuthService)
    → bytes_eq j id ≡ false
    → EndsBy id bound s.sessions
    → EndsBy id bound (extended now j o s).sessions
unfolding extended
extended-EndsBy id bound now j none s other h = h
extended-EndsBy id bound now j (some session) s other h =
    insert-EndsBy id bound j _ s.sessions other h

renew-EndsBy :
    (id : List ℕ) (bound now : ℕ) (j : List ℕ) (s : AuthService)
    → bytes_eq j id ≡ false
    → EndsBy id bound s.sessions
    → EndsBy id bound (renew_session now j s).1.sessions
unfolding renew_session
renew-EndsBy id bound now j s other h =
    let h' = validate-EndsBy id bound now j s h in
    if_cases (λ (r : Bool × AuthService). EndsBy id bound r.1.sessions) (validate_session now j s).0
      (λ _. extended-EndsBy id bound now j _ (validate_session now j s).1 other h') (λ _. h')

login-EndsBy :
    (p : Platform) (id : List ℕ) (bound now : ℕ) (random : Option (List ℕ))
    (username password : List ℕ) (s : AuthService)
    → bytes_eq (generate_session_id random) id ≡ false
    → EndsBy id bound s.sessions
    → EndsBy id bound (login p now random username password s).1.sessions
unfolding login signed_in note_login_failure
login-EndsBy p id bound now random username password s other h =
    let account = read_account p username in
    let Keeps = λ (r : LoginResult × AuthService). EndsBy id bound r.1.sessions in
    if_cases Keeps (throttled now username s) (λ _. h)
      (λ _.
        if_cases Keeps (not account.found || is_empty account.password_hash) (λ _. h)
          (λ _.
            if_cases Keeps (verifies p password account)
              (λ _.
                if_cases Keeps (is_empty (generate_session_id random)) (λ _. h)
                  (λ _. insert-EndsBy id bound _ _ s.sessions other h))
              (λ _. h)))

perform-EndsBy :
    (p : Platform) (id : List ℕ) (bound now : ℕ) (request : Request) (s : AuthService)
    → Spares id request
    → EndsBy id bound s.sessions
    → EndsBy id bound (perform p now request s).sessions
unfolding perform create_sso_session logout
perform-EndsBy p id bound now (sign_in random username password) s other h =
    login-EndsBy p id bound now random username password s other h
perform-EndsBy p id bound now (sign_in_sso random username) s other h =
    insert-EndsBy id bound (generate_session_id random) _ s.sessions other h
perform-EndsBy p id bound now (check j) s other h = validate-EndsBy id bound now j s h
perform-EndsBy p id bound now (keep_alive j) s other h = renew-EndsBy id bound now j s other h
perform-EndsBy p id bound now (sign_out j) s other h = erase-EndsBy id bound j s.sessions h

Quiet-EndsBy :
    (id : List ℕ) (bound : ℕ) {s t : AuthService}
    → Quiet id s t
    → EndsBy id bound s.sessions
    → EndsBy id bound t.sessions
Quiet-EndsBy id bound here h = h
Quiet-EndsBy id bound (next {t = t} p now request spares quiet) h =
    perform-EndsBy p id bound now request t spares (Quiet-EndsBy id bound quiet h)

checked_late :
    (now : ℕ) (id : List ℕ) (o : Option Session) (s : AuthService)
    → ((x : Session) → o ≡ some x → x.expires_at < now)
    → (checked now id o s).0 ≡ false
unfolding checked
checked_late now id none s h = refl
checked_late now id (some x) s h = rw (lt→ltb _ _ (h x refl))

-- The time to live is an idle timeout: a session that stands at some moment of a run is refused
-- from one time to live after the latest time shown by then, however many requests come in between and whatever they are,
-- as long as none renews it and no sign-in comes upon its identifier anew; nor does anything
-- read a user or a role from it. Checking it, as every
-- page that polls does, does not prolong it.
pub idle_session_ends :
    {ttl before : ℕ} {s t : AuthService} (id : List ℕ) (now : ℕ)
    → Run ttl before s
    → Quiet id s t
    → before + ttl < now
    → ((validate_session now id t).0 ≡ false) × (live now id t ≡ none)
unfolding validate_session live
idle_session_ends {ttl} {before} {t = t} id now run quiet late =
    let ends = Quiet-EndsBy id (before + ttl) quiet ((Run-IsTimely run).sessions_end id) in
    (
      if_cases (λ (r : Bool × AuthService). r.0 ≡ false) (is_empty id) (λ _. refl)
          (λ _.
            checked_late now id (lookup id t.sessions) t (λ x found. omega (arith, ends x found))),
      elim (Option-cases (lookup id t.sessions)) [
        | inl q ↦ rw (q, live)
        | inr (x, q) ↦ rw (q, live) (rw (lt→ltb x.expires_at now (omega (arith, ends x q))))
      ],
    )
