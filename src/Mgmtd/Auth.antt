-- ===== src/Mgmtd/Auth.antt =====
-- mgmtd/service/auth/AuthService.{h,cpp}: the sessions of the web interface and the throttle on
-- guessed passwords. Texts are bytes. Time is an argument, in seconds of the system clock. The
-- database, the running configuration, OpenSSL, `std::to_string` and `atoi` are the parameter
-- `Platform`; a query answers `none` where the database throws. The counter of failures is a
-- number: it stays far below 2^31, since each failure past the allowance waits.
pub mod Sessions
pub mod Backoff
pub mod Valid
pub mod Waits
pub mod Runs
pub mod Idle
pub mod Login
use Prim.Native.String.{String}
use text.Mathlib.Text.{◌==◌ as str_eq}
use nf_nms.Common.{
  ℕ, zero, suc, ◌+◌, ◌-◌, ◌*◌, List, [], ◌∷◌, Option, none, some, Bool, true, false, ◌&&◌, ◌||◌,
  not, if◌then◌else◌, ltb, leb, length, min, add_size,
}
use nf_nms.Common.Dict.{Dict, bytes_eq, lookup, insert, erase}
use nf_nms.Util.Password.{is_empty, to_hex, verify_password, needs_rehash, hash_password}
use nf_nms.Ipc.Message.{IpcMessage}

pub record Session : Type 0 where
  pub expires_at : ℕ
  pub username : List ℕ
  pub role : String
  pub must_change : Bool

pub record Throttle : Type 0 where
  pub failures : ℕ
  pub next_allowed_at : ℕ

pub record AuthService : Type 0 where
  pub sessions : Dict Session
  pub throttles : Dict Throttle
  pub loaded : Bool
  pub session_ttl_sec : ℕ

-- A row of `local_users`: the name, the hash, the salt, and `must_change` as text.
pub record Platform : Type 0 where
  pub accounts : List ℕ → Option (List (List (List ℕ)))
  pub users : List (List ℕ × String)
  pub pbkdf2 : (password salt : List ℕ) (iterations : ℕ) → Option (List ℕ)
  pub sha256 : List ℕ → Option (List ℕ)
  pub to_string : ℕ → List ℕ
  pub atoi : List ℕ → ℕ
  -- The key that `m_throttles.begin()` stands at.
  pub begin : Dict Throttle → List ℕ

pub record Stored : Type 0 where
  pub username : List ℕ
  pub password_hash : List ℕ
  pub salt : List ℕ
  pub must_change : Bool
  pub found : Bool

pub record LoginResult : Type 0 where
  pub success : Bool
  pub session_id : List ℕ
  pub must_change : Bool
  pub rehash_needed : Bool
  pub throttled : Bool

abbrev pub free_attempts : ℕ
free_attempts = 5

abbrev pub max_backoff_sec : ℕ
max_backoff_sec = 30

abbrev pub max_throttled : ℕ
max_throttled = 64

abbrev pub role_admin : String
role_admin = "admin"

abbrev pub role_user : String
role_user = "user"

pub refused : LoginResult
refused = record {
  success = false;
  session_id = [];
  must_change = false;
  rehash_needed = false;
  throttled = false;
}

-- The byte of the text "t".
unfoldable pub read_rows : Option (List (List (List ℕ))) → Option Stored
read_rows (some ((name ∷ hash ∷ salt ∷ must ∷ more) ∷ rows)) = some (record {
  username = name;
  password_hash = hash;
  salt = salt;
  must_change = bytes_eq must (116 ∷ []);
  found = true;
})
read_rows _ = none

pub not_found : Stored
not_found = record {
  username = [];
  password_hash = [];
  salt = [];
  must_change = false;
  found = false;
}

unfoldable pub role_in : List (List ℕ × String) → List ℕ → String
role_in [] username = role_user
role_in ((name, role) ∷ users) username =
    if bytes_eq name username
    then if str_eq role role_admin then role_admin else role_user
    else role_in users username

-- The two counts of the database: whether the first answer is another text than "0".
unfoldable pub counted : Option (List (List (List ℕ))) → Bool
counted (some ((count ∷ more) ∷ rows)) = not (bytes_eq count (48 ∷ []))
counted _ = false

unfoldable pub load_credential : Option (List (List (List ℕ))) → AuthService → Bool × AuthService
load_credential answer s = (counted answer, record s { loaded = counted answer })

unfoldable pub admin_setup_pending : Option (List (List (List ℕ))) → Bool
admin_setup_pending answer = counted answer

unfoldable pub throttled : ℕ → List ℕ → AuthService → Bool
throttled now username s = elim (lookup username s.throttles) [
  | none ↦ false
  | some t ↦ ltb now t.next_allowed_at
]

-- The loop that doubles the delay, over the rounds that are left.
pub doubled : ℕ → ℕ → ℕ
doubled zero delay = delay
doubled (suc left) delay =
    let rest = doubled left (delay * 2) in if ltb delay max_backoff_sec then rest else delay

pub backoff : ℕ → ℕ
backoff failures = min (doubled (failures - (free_attempts + 1)) 1) max_backoff_sec

pub count_failure : ℕ → Option Throttle → Throttle
count_failure now none = record { failures = 1; next_allowed_at = 0 }
count_failure now (some t) =
    if leb (t.failures + 1) free_attempts then record t { failures = t.failures + 1 } else record {
      failures = t.failures + 1;
      next_allowed_at = add_size now (backoff (t.failures + 1));
    }

pub is_known : {V : Type 0} → Option V → Bool
is_known none = false
is_known (some t) = true

-- `generateSessionId`, where the random bytes are none if OpenSSL has none.
unfoldable pub generate_session_id : Option (List ℕ) → List ℕ
generate_session_id none = []
generate_session_id (some buf) = to_hex buf

module _ (p : Platform) where
  unfoldable pub read_account : List ℕ → Stored
  unfolding read_rows not_found
  read_account username = elim (read_rows (p.accounts username)) [
    | none ↦ not_found
    | some account ↦ account
  ]

  unfoldable pub declared_role : List ℕ → String
  declared_role username = role_in p.users username

  pub room_for : List ℕ → Dict Throttle → Dict Throttle
  room_for username m =
      if leb max_throttled (length m) && not (is_known (lookup username m))
      then erase (p.begin m) m
      else m

  pub note_login_failure : ℕ → List ℕ → AuthService → AuthService
  note_login_failure now username s =
      let m = room_for username s.throttles in
      record s { throttles = insert username (count_failure now (lookup username m)) m }

  unfoldable pub verifies : List ℕ → Stored → Bool
  verifies password account =
      verify_password p.pbkdf2 p.sha256 p.to_string p.atoi password account.salt
        account.password_hash

  unfoldable pub check_password : List ℕ → List ℕ → Bool
  check_password username password =
      let account = read_account username in
      if not account.found || is_empty account.password_hash
      then false
      else verifies password account

  -- The end of `login`, with the identifier that was generated.
  pub signed_in : ℕ → List ℕ → Stored → AuthService → LoginResult × AuthService
  signed_in now id account s = if is_empty id then (refused, s) else (
    record {
      success = true;
      session_id = id;
      must_change = account.must_change;
      rehash_needed = needs_rehash p.pbkdf2 p.sha256 p.to_string p.atoi account.password_hash;
      throttled = false;
    },
    record s {
      sessions =
          insert id
            (record {
              expires_at = add_size now s.session_ttl_sec;
              username = account.username;
              role = declared_role account.username;
              must_change = account.must_change;
            })
            s.sessions;
    },
  )

  pub login :
      ℕ → Option (List ℕ) → (username password : List ℕ) → AuthService → LoginResult × AuthService
  unfolding signed_in
  login now random username password s =
      let account = read_account username in
      if throttled now username s
      then (record refused { throttled = true }, s)
      else if not account.found || is_empty account.password_hash
      then (refused, s)
      else if verifies password account
      then signed_in now (generate_session_id random) account
          (record s { throttles = erase username s.throttles })
      else (refused, note_login_failure now username s)

  unfoldable pub create_sso_session :
      ℕ → Option (List ℕ) → List ℕ → AuthService → List ℕ × AuthService
  create_sso_session now random username s =
      let id = generate_session_id random in
      (
        id,
        record s {
          sessions =
              insert id
                (record {
                  expires_at = add_size now s.session_ttl_sec;
                  username = username;
                  role = declared_role username;
                  must_change = false;
                })
                s.sessions;
        },
      )

  -- `makeCredential`, with the salt that `generateSalt` gives: the hash and the salt.
  unfoldable pub make_credential : List ℕ → List ℕ → List ℕ × List ℕ
  make_credential salt password =
      let hash = hash_password p.pbkdf2 p.sha256 p.to_string p.atoi password salt in
      if is_empty salt then ([], []) else if is_empty hash then ([], []) else (hash, salt)

-- What `handleEvent` files under the ticket of a SAML answer: its text, or that it was empty.
pub data SsoResult : Type 0 where
  verdict : List ℕ → SsoResult
  empty_result : SsoResult

unfoldable pub handle_event : Option IpcMessage → Option (ℕ × SsoResult)
handle_event none = none
handle_event (some m) =
    some (m.header.seq_no, if is_empty m.payload then empty_result else verdict m.payload)
