-- ===== src/Mgmtd/Web.antt =====
-- mgmtd/service/web/WebService.{h,cpp} and the cookie parser of WebUtil.h: the two gates that stand
-- before every handler. A request's cookie header is bytes; its method and target are texts.
pub mod Routes
pub mod Table
pub mod Gate
use Prim.Native.String.{String}
use text.Mathlib.Text.{◌==◌ as str_eq, starts_with}
use nf_nms.Common.{
  ℕ, List, [], ◌∷◌, Option, none, some, Bool, true, false, ◌&&◌, ◌||◌, not, if◌then◌else◌, ◌==◌,
}
use nf_nms.Util.Password.{strip}
use nf_nms.Mgmtd.Auth.{AuthService}
use nf_nms.Mgmtd.Auth.Sessions.{validate_session, must_change_password}
use nf_nms.Mgmtd.Web.Routes.{
  WebRoute, no_route, Access, public, authenticated, Match, exact, prefix, Row, routes,
}

pub record HttpRequest : Type 0 where
  pub method : String
  pub target : String
  pub cookie : List ℕ

-- `Resolved`, with the values that it has where no row is found.
pub record Resolved : Type 0 where
  pub route : WebRoute
  pub access : Access
  pub must_change_exempt : Bool

pub nothing : Resolved
nothing = record { route = no_route; access = authenticated; must_change_exempt = false }

abbrev pub of_row : Row → Resolved
of_row r = record { route = r.route; access = r.access; must_change_exempt = r.must_change_exempt }

unfoldable pub matches : Match → String → String → Bool
matches exact target path = str_eq target path
matches prefix target path = starts_with target path

unfoldable pub hit : String → String → Row → Bool
hit method target r = str_eq method r.method && matches r.match target r.path

-- The loop of `resolve`.
unfoldable pub resolve_in : String → String → List Row → Resolved
resolve_in method target [] = nothing
resolve_in method target (r ∷ rows) =
    if hit method target r then of_row r else resolve_in method target rows

unfoldable pub resolve : String → String → Resolved
unfolding routes
resolve method target = resolve_in method target routes

-- "session="
abbrev pub session_key : List ℕ
session_key = 115 ∷ 101 ∷ 115 ∷ 115 ∷ 105 ∷ 111 ∷ 110 ∷ 61 ∷ []

-- Up to the first `;`.
unfoldable pub until_semicolon : List ℕ → List ℕ
until_semicolon [] = []
until_semicolon (c ∷ text) = if c == 59 then [] else c ∷ until_semicolon text

-- The key counts at the beginning, and after a blank or a `;`.
unfoldable pub scan_cookie : Bool → List ℕ → List ℕ
scan_cookie boundary [] = []
scan_cookie boundary (c ∷ text) =
    let rest = scan_cookie (c == 32 || c == 59) text in
    elim (if boundary then strip session_key (c ∷ text) else none) [
      | none ↦ rest
      | some value ↦ until_semicolon value
    ]

unfoldable pub session_cookie : HttpRequest → List ℕ
session_cookie req = scan_cookie true req.cookie

unfoldable pub is_static_target : String → Bool
is_static_target target = not (starts_with target "/api")

unfoldable pub is_public_page : String → Bool
is_public_page target =
    str_eq target "/"
    || str_eq target "/index.html"
    || str_eq target "/css/main.css"
    || str_eq target "/js/main.js"
    || str_eq target "/js/login.js"

-- What becomes of a request: a controller's handler is called, a file is served, the login page is
-- sent for, an answer of the gates (401 and 403) is given, or the response stays at its 404.
pub data Outcome : Type 0 where
  handled : WebRoute → Outcome
  static_served redirected unauthenticated password_change_required not_found : Outcome

-- The gate of `staticFallback`.
pub static_fallback : ℕ → HttpRequest → AuthService → Outcome × AuthService
static_fallback now req s =
    let (valid, s') = validate_session now (session_cookie req) s in
    if is_public_page req.target
    then (static_served, s)
    else if valid
    then (static_served, s')
    else (redirected, s')

-- The lock of a pending password change, after a session that is valid.
pub locked_or_handled : ℕ → HttpRequest → Resolved → AuthService → Outcome
locked_or_handled now req r s =
    if not r.must_change_exempt
      && starts_with req.target "/api/"
      && must_change_password now (session_cookie req) s
    then password_change_required
    else handled r.route

pub gated : ℕ → HttpRequest → Resolved → Access → AuthService → Outcome × AuthService
gated now req r public s = (handled r.route, s)
gated now req r authenticated s =
    let (valid, s') = validate_session now (session_cookie req) s in
    if valid then (locked_or_handled now req r s', s') else (unauthenticated, s')

pub is_none : WebRoute → Bool
is_none no_route = true
is_none _ = false

-- `route`, up to the call of the handler.
pub route : ℕ → HttpRequest → AuthService → Outcome × AuthService
route now req s =
    let r = resolve req.method req.target in
    if is_none r.route
    then if is_static_target req.target then static_fallback now req s else (not_found, s)
    else gated now req r r.access s
