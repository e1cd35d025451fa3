-- ===== src/Mgmtd/Serve.antt =====
-- One request through the gates of WebService::route to the handlers that change the sessions: those
-- of AuthController and the end of a SAML sign-in. The handlers of the other controllers read
-- sessions and change none.
pub mod Idle
use nf_nms.Common.{ℕ, List, Option, Bool, true, false}
use nf_nms.Mgmtd.Auth.{AuthService, Platform}
use nf_nms.Mgmtd.Web.{
  HttpRequest, Outcome, handled, static_served, redirected, unauthenticated,
  password_change_required, not_found, session_cookie, route,
}
use nf_nms.Mgmtd.Web.Routes.{WebRoute, login, logout, session_keepalive, saml_result}
use nf_nms.Mgmtd.Accounts.{SamlVerdict, login_handler, logout_handler, keepalive}
use nf_nms.Mgmtd.Accounts

-- What comes with a request: the random bytes, the salt, what the JSON library reads of the body
-- of a sign-in, and where the SAML ticket stands.
pub record Input : Type 0 where
  pub random : Option (List ℕ)
  pub salt : List ℕ
  pub pair : Option (List ℕ × List ℕ)
  pub verdict : SamlVerdict

module _ (p : Platform) where
  pub run_handler : ℕ → HttpRequest → Input → WebRoute → AuthService → AuthService
  run_handler now req input login s = (login_handler p now input.random input.salt input.pair s).2
  run_handler now req input logout s = (logout_handler p (session_cookie req) s).1
  run_handler now req input session_keepalive s = (keepalive now (session_cookie req) s).1
  run_handler now req input saml_result s =
      (Accounts.saml_result p now input.random input.verdict s).1
  run_handler now req input _ s = s

  pub after_route : ℕ → HttpRequest → Input → Outcome × AuthService → AuthService
  unfolding run_handler
  after_route now req input (handled w, s) = run_handler now req input w s
  after_route now req input (static_served, s) = s
  after_route now req input (redirected, s) = s
  after_route now req input (unauthenticated, s) = s
  after_route now req input (password_change_required, s) = s
  after_route now req input (not_found, s) = s

  -- The gates read the clock at `now`, the handler at `later`.
  pub serve : (now later : ℕ) → HttpRequest → Input → AuthService → AuthService
  serve now later req input s = after_route later req input (route now req s)
