-- ===== src/Mgmtd/Serve/Idle.antt =====
-- A browser that only polls is signed out.
use nf_nms.Common.{
  ℕ, ◌+◌, ◌<◌, List, ◌≡◌, inl, inr, sym, subst, ◌∙◌, Option, none, some, Bool, true, false,
  if_cases, arith,
}
use nf_nms.Common.Dict.{bytes_eq}
use nf_nms.Mgmtd.Auth.{AuthService, Platform, generate_session_id, create_sso_session}
use nf_nms.Mgmtd.Auth.Valid.{IsLive, IsLive-live}
use nf_nms.Mgmtd.Auth.Idle.{
  Run, Quiet, here, next, sign_in, sign_in_sso, check, sign_out, perform, idle_session_ends,
}
use nf_nms.Mgmtd.Web.{
  HttpRequest, Outcome, handled, static_served, redirected, unauthenticated,
  password_change_required, not_found, session_cookie, resolve, is_public_page, route,
}
use nf_nms.Mgmtd.Web.Routes.{WebRoute, login, logout, saml_result, metric, session_keepalive}
use nf_nms.Mgmtd.Web.Table.{is_open}
use nf_nms.Mgmtd.Web.Gate.{Guarded, route-Guarded, Calls, route-Left, route-Calls}
use nf_nms.Util.Password.{is_empty}
use nf_nms.Mgmtd.Accounts
use nf_nms.Mgmtd.Accounts.{
  SamlVerdict, bad_ticket, unanswered, unreadable, rejected, accepted, HttpResponse, login_handler,
  logout_handler, sso_signed_in,
}
use nf_nms.Mgmtd.Serve.{Input, run_handler, after_route, serve}

unfoldable pub is_keepalive : WebRoute → Bool
is_keepalive session_keepalive = true
is_keepalive _ = false

-- The requests of a browser in between, with any other cookies too: none is routed to the renewal
-- of sessions, and no sign-in comes upon the identifier anew.
pub record IsPoll (id : List ℕ) (req : HttpRequest) (input : Input) : Type 0 where
  pub no_renewal : is_keepalive (resolve req.method req.target).route ≡ false
  pub other_id : bytes_eq (generate_session_id input.random) id ≡ false

pub data Browses (id : List ℕ) (s : AuthService) : AuthService → Type 0 where
  still : Browses id s s
  asked :
      {t : AuthService} (p : Platform) (now later : ℕ) (req : HttpRequest) (input : Input)
      → IsPoll id req input
      → Browses id s t
      → Browses id s (serve p now later req input t)

module _ (id : List ℕ) (s : AuthService) (p : Platform) (later : ℕ) (req : HttpRequest)
    (input : Input) {t : AuthService}
    (fresh : bytes_eq (generate_session_id input.random) id ≡ false) (quiet : Quiet id s t) where
  login-Quiet :
      (pair : Option (List ℕ × List ℕ))
      → Quiet id s (login_handler p later input.random input.salt pair t).2
  unfolding login_handler perform
  login-Quiet none = quiet
  login-Quiet (some (username, password)) =
      next p later (sign_in input.random username password) fresh quiet

  saml-Quiet :
      (verdict : SamlVerdict) → Quiet id s (Accounts.saml_result p later input.random verdict t).1
  unfolding Accounts.saml_result sso_signed_in perform
  saml-Quiet bad_ticket = quiet
  saml-Quiet unanswered = quiet
  saml-Quiet unreadable = quiet
  saml-Quiet rejected = quiet
  saml-Quiet (accepted user) =
      let signed = create_sso_session p later input.random user t in
      if_cases (λ (x : HttpResponse × AuthService). Quiet id s x.1) (is_empty signed.0)
        (λ _. next p later (sign_in_sso input.random user) fresh quiet)
        (λ _. next p later (sign_in_sso input.random user) fresh quiet)

  handler-Quiet :
      (w : WebRoute) → is_keepalive w ≡ false → Quiet id s (run_handler p later req input w t)
  unfolding run_handler is_keepalive logout_handler perform
  handler-Quiet login h = login-Quiet input.pair
  handler-Quiet logout h = next p later (sign_out (session_cookie req)) tt quiet
  handler-Quiet session_keepalive h = absurd (ground (arith, h))
  handler-Quiet saml_result h = saml-Quiet input.verdict
  handler-Quiet metric h = quiet
  handler-Quiet _ h = quiet

  after-Quiet :
      (o : Outcome)
      → Calls (λ w. is_keepalive w ≡ false) o
      → Quiet id s (after_route p later req input (o, t))
  unfolding after_route
  after-Quiet (handled w) h = handler-Quiet w h
  after-Quiet static_served h = quiet
  after-Quiet redirected h = quiet
  after-Quiet unauthenticated h = quiet
  after-Quiet password_change_required h = quiet
  after-Quiet not_found h = quiet

-- Every page that polls keeps the session quiet.
Browses-Quiet : {id : List ℕ} {s t : AuthService} → Browses id s t → Quiet id s t
unfolding serve perform
Browses-Quiet still = here
Browses-Quiet {id} {s} (asked {t = t} p now later req input poll rest) =
    let quiet = Browses-Quiet rest in
    let t' = (route now req t).1 in
    let gated : Quiet id s t' = elim (route-Left now req t) [
      | inl e ↦ subst (Quiet id s) (sym e) quiet
      | inr e ↦ subst (Quiet id s) (sym e) (next p now (check (session_cookie req)) tt quiet)
    ] in
    after-Quiet id s p later req input {t = t'} poll.other_id gated (route now req t).0
      (route-Calls now req t (λ w. is_keepalive w ≡ false) poll.no_renewal)

-- From a session that stands at some moment of a run, a browser may send any requests with any
-- cookies; if none of them is POST /api/session/keepalive and no sign-in comes upon the session's
-- identifier anew, then later than one time to live after the latest time that the clock had shown
-- by that moment, a request with that session's cookie gets nothing but the routes that need no
-- session and the public pages.
pub idle_browser_refused :
    {ttl before : ℕ} {s t : AuthService} (now : ℕ) (req : HttpRequest)
    → Run ttl before s
    → Browses (session_cookie req) s t
    → before + ttl < now
    → Calls (λ w. is_open w ≡ true) (route now req t).0
      × ((route now req t).0 ≡ static_served → is_public_page req.target ≡ true)
idle_browser_refused {t = t} now req run browses late =
    (only_open (route now req t).0 (route-Guarded now req t), only_public (route-Guarded now req t))
  where
    dead : IsLive now (session_cookie req) t → ⊥
    dead l =
        let gone =
          (idle_session_ends (session_cookie req) now run (Browses-Quiet browses) late).1 in
        let clash : none ≡ some l.session = sym gone ∙ IsLive-live l in cc

    only_open : (o : Outcome) → Guarded now req t o → Calls (λ w. is_open w ≡ true) o
    only_open (handled w) (inl h) = h
    only_open (handled w) (inr (l, _)) = absurd (dead l)
    only_open static_served g = tt
    only_open redirected g = tt
    only_open unauthenticated g = tt
    only_open password_change_required g = tt
    only_open not_found g = tt

    only_public :
        Guarded now req t (route now req t).0
        → (route now req t).0 ≡ static_served
        → is_public_page req.target ≡ true
    only_public g e =
        let g' : Guarded now req t static_served = subst (Guarded now req t) e g in
        elim g' [ inl h ↦ h | inr l ↦ absurd (dead l) ]
