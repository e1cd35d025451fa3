-- ===== src/Mgmtd/Auth/Sessions.antt =====
-- The functions of AuthService that read, check, prolong and end a session.
use Prim.Native.String.{String}
use text.Mathlib.Text.{◌==◌ as str_eq}
use nf_nms.Common.{ℕ, List, [], Option, none, some, Bool, true, false, if◌then◌else◌, ltb, add_size}
use nf_nms.Common.Dict.{lookup, insert, erase}
use nf_nms.Util.Password.{is_empty}
use nf_nms.Mgmtd.Auth.{Session, AuthService, role_admin}

-- The session that a query reads: none where it is not there or has expired.
unfoldable pub live : ℕ → List ℕ → AuthService → Option Session
live now id s = elim (lookup id s.sessions) [
  | none ↦ none
  | some session ↦ if ltb session.expires_at now then none else some session
]

unfoldable pub session_user : ℕ → List ℕ → AuthService → List ℕ
unfolding live
session_user now id s = elim (live now id s) [ none ↦ [] | some session ↦ session.username ]

unfoldable pub session_role : ℕ → List ℕ → AuthService → String
unfolding live
session_role now id s = elim (live now id s) [ none ↦ "" | some session ↦ session.role ]

unfoldable pub session_is_admin : ℕ → List ℕ → AuthService → Bool
unfolding session_role
session_is_admin now id s = str_eq (session_role now id s) role_admin

unfoldable pub must_change_password : ℕ → List ℕ → AuthService → Bool
unfolding live
must_change_password now id s = elim (live now id s) [
  | none ↦ false
  | some session ↦ session.must_change
]

-- An expired session is erased when it is met.
unfoldable pub checked : ℕ → List ℕ → Option Session → AuthService → Bool × AuthService
checked now id none s = (false, s)
checked now id (some session) s =
    if ltb session.expires_at now
    then (false, record s { sessions = erase id s.sessions })
    else (true, s)

unfoldable pub validate_session : ℕ → List ℕ → AuthService → Bool × AuthService
unfolding checked
validate_session now id s =
    if is_empty id then (false, s) else checked now id (lookup id s.sessions) s

-- The assignment to `expiresAt`.
unfoldable pub extended : ℕ → List ℕ → Option Session → AuthService → AuthService
extended now id none s = s
extended now id (some session) s = record s {
  sessions = insert id (record session { expires_at = add_size now s.session_ttl_sec }) s.sessions;
}

unfoldable pub renew_session : ℕ → List ℕ → AuthService → Bool × AuthService
unfolding extended
renew_session now id s =
    let (ok, s') = validate_session now id s in
    if ok then (true, extended now id (lookup id s'.sessions) s') else (false, s')

unfoldable pub logout : List ℕ → AuthService → AuthService
logout id s = record s { sessions = erase id s.sessions }
