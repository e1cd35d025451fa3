-- ===== src/Tests/Accounts.antt =====
-- Two accounts under a password hash that hides nothing, and a browser that polls.
use nf_nms.Common.{
  ℕ, suc, ◌+◌, ◌^◌, ◌<◌, List, [], ◌∷◌, ◌≡◌, ◌↔◌, refl, arith, Option, none, some, true, false,
  length, ◌≤◌, ◌⊎◌, ltb, Bool-cases, inl, inr,
}
use nf_nms.Common.Dict.{Dict, bytes_eq, bytes_eq_refl, lookup, insert}
use nf_nms.Util.Password.{
  is_empty, to_hex, hex_of, is_digits, strip, pbkdf2_hex, pbkdf2_iterations, hash_password,
}
use nf_nms.Util.Password.Verify.{IsDecimal}
use nf_nms.Engined.Admin.{Account, LocalUserUpdate}
use nf_nms.Util.Password.Verify.{verify_password-hash_password}
use nf_nms.Mgmtd.Auth.{
  AuthService, Platform, Throttle, generate_session_id, read_account, read_rows, verifies,
  check_password, make_credential, throttled, create_sso_session, login,
}
use nf_nms.Mgmtd.Auth.Sessions.{live, session_user}
use nf_nms.Mgmtd.Auth.Waits.{failures_of, wait_of, login_failure_waits}
use nf_nms.Mgmtd.Auth.Runs.{IsTimely, IsPlatform}
use nf_nms.Mgmtd.Auth.Idle.{Run, started, asked, sign_in_sso, perform, opened, Run-IsTimely}
use nf_nms.Mgmtd.Auth.Login.{IsAdmitted, Reads, session_of, login_lem}
use nf_nms.Mgmtd.Web.{
  HttpRequest, static_served, resolve, resolve_in, hit, matches, of_row, route, session_cookie,
  scan_cookie, until_semicolon, is_public_page,
}
use nf_nms.Mgmtd.Web.Routes.{Row, routes, change_password, exact, authenticated}
use nf_nms.Mgmtd.Web.Table.{is_open, resolve-row}
use nf_nms.Mgmtd.Web.Gate.{Guarded, Calls, route-Guarded}
use nf_nms.Mgmtd.Accounts.{
  AccountInput, credential_store, fill, persist_credential, select_account, bad_ticket,
}
use nf_nms.Mgmtd.Accounts
use nf_nms.Mgmtd.Accounts.Access.{IsAllowed, credential_store-IsAllowed}
use nf_nms.Mgmtd.Accounts.Change.{deliver, change_password_takes_effect}
use nf_nms.Mgmtd.Serve.{Input, serve}
use nf_nms.Mgmtd.Serve.Idle.{
  is_keepalive, IsPoll, Browses, still, asked as browsed, idle_browser_refused,
}

abbrev pbkdf2 : List ℕ → List ℕ → ℕ → Option (List ℕ)
pbkdf2 password salt iterations = some password

abbrev sha256 : List ℕ → Option (List ℕ)
sha256 text = some text

-- 210000
abbrev to_string : ℕ → List ℕ
to_string n = 50 ∷ 49 ∷ 48 ∷ 48 ∷ 48 ∷ 48 ∷ []

abbrev atoi : List ℕ → ℕ
atoi text = 210000

decimal : IsDecimal pbkdf2 sha256 to_string atoi
unfolding is_digits is_empty
decimal = record { digits = refl; some_digit = refl; read_back = refl }

-- "hi" and "me", their salts, and a password each.
abbrev hi : List ℕ
hi = 104 ∷ 105 ∷ []

abbrev hash_of : List ℕ → List ℕ
hash_of password = hash_password pbkdf2 sha256 to_string atoi password (3 ∷ [])

abbrev table : Dict Account
table =
    (
      hi,
      record {
        oid = 1 ∷ [];
        password_hash = hash_of (112 ∷ []);
        salt = 3 ∷ [];
        must_change = true;
      },
    )
    ∷ (
      109 ∷ 101 ∷ [],
      record { oid = 2 ∷ []; password_hash = 9 ∷ []; salt = 9 ∷ []; must_change = false },
    )
    ∷ []

abbrev platform : Platform
platform = record {
  accounts = select_account table;
  users = (hi, "admin") ∷ [];
  pbkdf2 = pbkdf2;
  sha256 = sha256;
  to_string = to_string;
  atoi = atoi;
  begin = first;
}
  where
    first : Dict Throttle → List ℕ
    first [] = []
    first ((k, t) ∷ m) = k

verified : check_password platform hi (112 ∷ []) ≡ true
unfolding check_password read_account read_rows verifies select_account lookup bytes_eq is_empty
    hash_password pbkdf2_hex hex_of to_hex
verified =
    (verify_password-hash_password pbkdf2 sha256 to_string atoi (112 ∷ []) (3 ∷ []) (112 ∷ [])
        (3 ∷ []) decimal refl).0.1
      refl

not_verified : verifies platform (113 ∷ []) (read_account platform hi) ≡ false
unfolding verifies read_account read_rows select_account lookup bytes_eq is_empty hash_password
    pbkdf2_hex hex_of to_hex
not_verified = elim (Bool-cases (verifies platform (113 ∷ []) (read_account platform hi))) [
  | inr n ↦ n
  | inl v ↦
      let same =
        (verify_password-hash_password pbkdf2 sha256 to_string atoi (112 ∷ []) (3 ∷ []) (113 ∷ [])
            (3 ∷ []) decimal refl).0.0
          v in
      absurd (ground (arith, same))
]

-- Six sign-ins of "hi" have failed.
abbrev tried : AuthService
tried = record (opened 1800) {
  throttles = (hi, record { failures = 6; next_allowed_at = 90 }) ∷ [];
}

login_failure_waits_example :
    let t = (login platform 100 none hi (113 ∷ []) tried).1 in
    let n = suc (failures_of (lookup hi tried.throttles)) in
    (failures_of (lookup hi t.throttles) ≡ n) × (throttled 101 hi t ≡ ltb 101 (100 + wait_of n))
unfolding read_account read_rows select_account throttled lookup bytes_eq is_empty hash_password
    pbkdf2_hex hex_of to_hex
login_failure_waits_example =
    login_failure_waits platform 100 101 none hi (113 ∷ []) tried refl refl refl not_verified
      (omega arith) (omega arith)

platform-IsPlatform : IsPlatform platform
unfolding lookup bytes_eq
platform-IsPlatform = record { begins = begins }
  where
    begins :
        (m : Dict Throttle) → 0 < length m → (t : Throttle) × (lookup (platform.begin m) m ≡ some t)
    begins [] h = absurd (omega (arith, h))
    begins ((k, t) ∷ m) h = (t, rw (bytes_eq_refl k))

abbrev random : Option (List ℕ)
random = some (1 ∷ 2 ∷ [])

-- "0102"
abbrev id : List ℕ
id = 48 ∷ 49 ∷ 48 ∷ 50 ∷ []

abbrev signed_in : AuthService
signed_in = perform platform 100 (sign_in_sso random hi) (opened 1800)

signed_in_Run : Run 1800 100 signed_in
signed_in_Run =
    asked platform 100 (sign_in_sso random hi) platform-IsPlatform (omega arith) (omega arith)
      started

Run-IsTimely_example : IsTimely 1800 100 signed_in
Run-IsTimely_example = Run-IsTimely signed_in_Run

abbrev poll : HttpRequest
poll = record {
  method = "GET";
  target = "/api/whoami";
  cookie = 115 ∷ 101 ∷ 115 ∷ 115 ∷ 105 ∷ 111 ∷ 110 ∷ 61 ∷ id;
}

abbrev no_input : Input
no_input = record { random = none; salt = []; pair = none; verdict = bad_ticket }

cookie_id : session_cookie poll ≡ id
unfolding session_cookie scan_cookie until_semicolon strip
cookie_id = refl

poll-IsPoll : IsPoll (session_cookie poll) poll no_input
unfolding is_keepalive resolve resolve_in hit matches generate_session_id bytes_eq
poll-IsPoll = record { no_renewal = refl; other_id = rw (cookie_id, generate_session_id) refl }

abbrev polled : AuthService
polled = serve platform 200 201 poll no_input signed_in

polled-Browses : Browses (session_cookie poll) signed_in polled
polled-Browses = browsed platform 200 201 poll no_input poll-IsPoll still

idle_browser_refused_example :
    Calls (λ w. is_open w ≡ true) (route 1901 poll polled).0
    × ((route 1901 poll polled).0 ≡ static_served → is_public_page poll.target ≡ true)
idle_browser_refused_example =
    idle_browser_refused 1901 poll signed_in_Run polled-Browses (omega arith)

route-Guarded_example : Guarded 1900 poll signed_in (route 1900 poll signed_in).0
route-Guarded_example = route-Guarded 1900 poll signed_in

login_lem_example :
    let (r, t) = login platform 100 random hi (112 ∷ []) signed_in in
    ((r.success ≡ true) ↔ IsAdmitted platform 100 random hi (112 ∷ []) signed_in)
    × (r.success ≡ false → t.sessions ≡ signed_in.sessions)
    × (r.success ≡ true
        → 100 + signed_in.session_ttl_sec < 2 ^ 64
        → ((later : ℕ)
            → later ≤ 100 + signed_in.session_ttl_sec
            → Reads r.session_id (session_of platform 100 random hi (112 ∷ []) signed_in) later t)
          × (lookup hi t.throttles ≡ none))
login_lem_example = login_lem platform 100 random hi (112 ∷ []) signed_in

abbrev input : AccountInput
input = record { oid = 2 ∷ []; username = 109 ∷ 101 ∷ []; remove = true; password = [] }

-- "2"
abbrev count : List (List (List ℕ))
count = ((50 ∷ []) ∷ []) ∷ []

credential_store-IsAllowed_example :
    let sent = (credential_store platform 100 (3 ∷ []) id (some count) (some input) signed_in).1 in
    (sent ≡ [])
    ⊎ ((u : LocalUserUpdate) × (sent ≡ u ∷ [])
        × IsAllowed platform 100 (3 ∷ []) id (some count) input signed_in u)
credential_store-IsAllowed_example =
    credential_store-IsAllowed platform 100 (3 ∷ []) id signed_in (some count) input

abbrev escape : Row
escape = record {
  method = "POST";
  path = "/api/change-password";
  match = exact;
  route = change_password;
  access = authenticated;
  must_change_exempt = true;
}

abbrev first_four : List Row → List Row
first_four (a ∷ b ∷ c ∷ d ∷ rows) = a ∷ b ∷ c ∷ d ∷ []
first_four _ = []

abbrev after_five : List Row → List Row
after_five (a ∷ b ∷ c ∷ d ∷ e ∷ rows) = rows
after_five _ = []

resolve-row_example : resolve "POST" "/api/change-password" ≡ of_row escape
unfolding routes
resolve-row_example = resolve-row (first_four routes) escape (after_five routes) refl

granted :
    (Accounts.change_password platform 100
      (3 ∷ [])
      id
      (some (112 ∷ [], 113 ∷ []))
      signed_in).0.status
    ≡ 200
unfolding Accounts.change_password Accounts.change_for perform create_sso_session session_user live
    lookup insert bytes_eq generate_session_id to_hex is_empty make_credential hash_password
    pbkdf2_hex hex_of fill
granted = rw verified refl

change_password_takes_effect_example :
    let sent =
      (Accounts.change_password platform 100 (3 ∷ []) id (some (112 ∷ [], 113 ∷ [])) signed_in).1 in
    let table' = deliver (7 ∷ []) sent table in
    let p' = record platform { accounts = select_account table' } in
    let user = session_user 100 id signed_in in
    (check_password platform user (112 ∷ []) ≡ true)
    × ((later : ℕ) (random : Option (List ℕ)) (password : List ℕ) (t : AuthService)
        → throttled later user t ≡ false
        → is_empty (generate_session_id random) ≡ false
        → ((login p' later random user password t).0.success ≡ true) ↔ (
            pbkdf2_hex pbkdf2 sha256 to_string atoi password (3 ∷ []) pbkdf2_iterations
            ≡ pbkdf2_hex pbkdf2 sha256 to_string atoi (113 ∷ []) (3 ∷ []) pbkdf2_iterations))
    × ((other : List ℕ) → bytes_eq user other ≡ false → lookup other table' ≡ lookup other table)
change_password_takes_effect_example =
    change_password_takes_effect platform 100 (3 ∷ []) id (112 ∷ []) (113 ∷ []) signed_in (7 ∷ [])
      table decimal granted
