-- ===== src/Mgmtd/Accounts.antt =====
-- mgmtd/service/web/controller/AuthController.cpp and UserController.cpp, and the end of a SAML
-- sign-in in SsoController.cpp. What the JSON library reads of a request's body comes with the
-- request, none where it throws; the texts of the answers are left as their contents. A message to
-- engined is the fields of its payload.
pub mod Access
pub mod Change
use Prim.Native.String.{String}
use nf_nms.Common.{
  ℕ, List, [], ◌∷◌, Option, none, some, Bool, true, false, ◌&&◌, ◌||◌, not, if◌then◌else◌, ltb,
  length,
}
use nf_nms.Common.Dict.{Dict, bytes_eq, lookup}
use nf_nms.Util.Password.{is_empty}
use nf_nms.Engined.Admin.{Account, LocalUserUpdate}
use nf_nms.Mgmtd.Auth.{
  AuthService, Platform, LoginResult, login, check_password, make_credential, create_sso_session,
}
use nf_nms.Mgmtd.Auth.Sessions.{session_user, session_role, session_is_admin, renew_session, logout}

pub data Reply : Type 0 where
  too_many_attempts invalid_credentials bad_request logged_out empty_password unauthorized : Reply
  wrong_password no_credential credential_sent names_required forbidden own_account : Reply
  last_account accounts_unreadable password_too_short handed_over pending session_error : Reply
  verification_failed signed_in_by_sso : Reply
  signed_in : Bool → Reply
  whoami : List ℕ → String → Reply
  expires_in : ℕ → Reply

pub data Cookie : Type 0 where
  kept cleared : Cookie
  issued : List ℕ → Cookie

pub record HttpResponse : Type 0 where
  pub status : ℕ
  pub reply : Reply
  pub set_cookie : Cookie

unfoldable pub fill : ℕ → Reply → HttpResponse
fill status reply = record { status = status; reply = reply; set_cookie = kept }

abbrev pub min_password_chars : ℕ
min_password_chars = 8

-- `persistCredential`
pub persist_credential : List ℕ → List ℕ × List ℕ → LocalUserUpdate
persist_credential username (hash, salt) = record {
  oid = [];
  username = username;
  remove = false;
  password_hash = hash;
  salt = salt;
  must_change = false;
}

-- The fields of the body of `credentialStore`, empty and false where they are missing. A field of
-- another JSON type makes the library throw out of the handler: such bodies are outside the type.
pub record AccountInput : Type 0 where
  pub oid : List ℕ
  pub username : List ℕ
  pub remove : Bool
  pub password : List ℕ

-- What a SAML ticket has led to: no ticket, no answer yet, an answer that is not JSON, a rejection,
-- or the name that the identity provider vouches for.
pub data SamlVerdict : Type 0 where
  bad_ticket unanswered unreadable rejected : SamlVerdict
  accepted : List ℕ → SamlVerdict

-- Whether the text in the first column of the first row is "1".
pub is_only : List (List (List ℕ)) → Bool
is_only ((count ∷ columns) ∷ rows) = bytes_eq count (49 ∷ [])
is_only _ = false

-- The row that `readAccount` selects.
unfoldable pub select_account : Dict Account → List ℕ → Option (List (List (List ℕ)))
select_account table username = elim (lookup username table) [
  | none ↦ some []
  | some a ↦ some (
      (username ∷ a.password_hash ∷ a.salt ∷ (if a.must_change then 116 ∷ [] else 102 ∷ []) ∷ [])
      ∷ [])
]

module _ (p : Platform) where
  -- The upgrade of an outdated hash: nothing is sent where it fails.
  pub upgrade : List ℕ → List ℕ × List ℕ → List LocalUserUpdate
  upgrade username (hash, salt) =
      if is_empty hash then [] else persist_credential username (hash, salt) ∷ []

  -- The rest of `login`, on the service's answer.
  unfoldable pub login_reply :
      (salt username password : List ℕ) → LoginResult → HttpResponse × List LocalUserUpdate
  unfolding upgrade
  login_reply salt username password r =
      if r.throttled
      then (fill 429 too_many_attempts, [])
      else if not r.success
      then (fill 401 invalid_credentials, [])
      else (
        record { status = 200; reply = signed_in r.must_change; set_cookie = issued r.session_id },
        if r.rehash_needed then upgrade username (make_credential p salt password) else [],
      )

  unfoldable pub login_handler :
      ℕ
      → Option (List ℕ)
      → List ℕ
      → Option (List ℕ × List ℕ)
      → AuthService
      → HttpResponse × List LocalUserUpdate × AuthService
  login_handler now random salt none s = (fill 400 bad_request, [], s)
  login_handler now random salt (some (username, password)) s =
      let (r, s') = login p now random username password s in
      let (resp, sent) = login_reply salt username password r in (resp, sent, s')

  unfoldable pub logout_handler : List ℕ → AuthService → HttpResponse × AuthService
  logout_handler id s =
      (record { status = 200; reply = logged_out; set_cookie = cleared }, logout id s)

  -- The end of `changePassword`, for the session's user.
  unfoldable pub change_for :
      (salt user old_password new_password : List ℕ) → HttpResponse × List LocalUserUpdate
  change_for salt user old_password new_password =
      let credential = make_credential p salt new_password in
      if is_empty user
      then (fill 401 unauthorized, [])
      else if not (check_password p user old_password)
      then (fill 401 wrong_password, [])
      else if is_empty credential.0
      then (fill 500 no_credential, [])
      else (fill 200 credential_sent, persist_credential user credential ∷ [])

  unfoldable pub change_password :
      ℕ
      → (salt id : List ℕ) → Option (List ℕ × List ℕ)
      → AuthService
      → HttpResponse × List LocalUserUpdate
  unfolding change_for
  change_password now salt id none s = (fill 400 bad_request, [])
  change_password now salt id (some (old_password, new_password)) s =
      if is_empty new_password
      then (fill 400 empty_password, [])
      else change_for salt (session_user now id s) old_password new_password

  -- The removal, with the answer to `SELECT count(*) FROM local_users`, none where the database
  -- throws.
  pub remove_account :
      Option (List (List (List ℕ))) → AccountInput → HttpResponse × List LocalUserUpdate
  unfolding is_only
  remove_account none input = (fill 503 accounts_unreadable, [])
  remove_account (some rows) input = if is_only rows then (fill 409 last_account, []) else (
    fill 202 handed_over,
    record {
      oid = input.oid;
      username = input.username;
      remove = true;
      password_hash = [];
      salt = [];
      must_change = false;
    }
        ∷ [],
  )

  pub set_account : (salt : List ℕ) → AccountInput → HttpResponse × List LocalUserUpdate
  set_account salt input =
      let (hash, kept_salt) = make_credential p salt input.password in
      if ltb (length input.password) min_password_chars
      then (fill 400 password_too_short, [])
      else (
        fill 202 handed_over,
        record {
          oid = input.oid;
          username = input.username;
          remove = false;
          password_hash = hash;
          salt = kept_salt;
          must_change = false;
        }
            ∷ [],
      )

  -- `credentialStore`
  pub credential_store :
      ℕ
      → (salt id : List ℕ) → Option (List (List (List ℕ)))
      → Option AccountInput
      → AuthService
      → HttpResponse × List LocalUserUpdate
  unfolding remove_account set_account
  credential_store now salt id count none s = (fill 400 bad_request, [])
  credential_store now salt id count (some input) s =
      if is_empty input.oid || is_empty input.username
      then (fill 400 names_required, [])
      else if not (session_is_admin now id s)
      then (fill 403 forbidden, [])
      else if input.remove && bytes_eq input.username (session_user now id s)
      then (fill 409 own_account, [])
      else if input.remove
      then remove_account count input
      else set_account salt input

  -- The end of `samlResult`.
  unfoldable pub sso_signed_in : List ℕ × AuthService → HttpResponse × AuthService
  sso_signed_in (id, s) =
      if is_empty id
      then (fill 200 session_error, s)
      else (record { status = 200; reply = signed_in_by_sso; set_cookie = issued id }, s)

  unfoldable pub saml_result :
      ℕ → Option (List ℕ) → SamlVerdict → AuthService → HttpResponse × AuthService
  unfolding sso_signed_in
  saml_result now random bad_ticket s = (fill 200 bad_request, s)
  saml_result now random unanswered s = (fill 200 pending, s)
  saml_result now random unreadable s = (fill 200 bad_request, s)
  saml_result now random rejected s = (fill 200 verification_failed, s)
  saml_result now random (accepted user) s = sso_signed_in (create_sso_session p now random user s)

unfoldable pub whoami_handler : ℕ → List ℕ → AuthService → HttpResponse
whoami_handler now id s = fill 200 (whoami (session_user now id s) (session_role now id s))

unfoldable pub keepalive : ℕ → List ℕ → AuthService → HttpResponse × AuthService
keepalive now id s =
    let (renewed, s') = renew_session now id s in
    if renewed then (fill 200 (expires_in s'.session_ttl_sec), s') else (fill 401 unauthorized, s')
