-- ===== src/Mgmtd/Web/Gate.antt =====
-- Who gets past the gates.
use text.Mathlib.Text.{starts_with}
use nf_nms.Common.{
  ℕ, List, ◌≡◌, ◌⊎◌, inl, inr, refl, ap, sym, ◌∙◌, true, false, not, ◌&&◌, if_cases, Bool-cases,
  arith,
}
use nf_nms.Mgmtd.Auth.{AuthService}
use nf_nms.Mgmtd.Auth.Sessions.{validate_session, must_change_password}
use nf_nms.Mgmtd.Auth.Valid.{IsLive, validate_true}
use nf_nms.Mgmtd.Web.{
  HttpRequest, Resolved, Outcome, handled, static_served, redirected, unauthenticated,
  password_change_required, not_found, resolve, session_cookie, is_none, is_static_target,
  is_public_page, static_fallback, locked_or_handled, gated, route,
}
use nf_nms.Mgmtd.Web.Routes.{WebRoute, Access, public, authenticated}
use nf_nms.Mgmtd.Web.Table.{is_open, is_escape, IsSound, resolve-IsSound}

-- What each outcome takes.
abbrev pub Guarded : ℕ → HttpRequest → AuthService → Outcome → Type 0
Guarded now req s (handled w) =
    (is_open w ≡ true)
    ⊎ (IsLive now (session_cookie req) s
        × ((must_change_password now (session_cookie req) s ≡ false) ⊎ (is_escape w ≡ true)))
Guarded now req s static_served =
    (is_public_page req.target ≡ true) ⊎ IsLive now (session_cookie req) s
Guarded now req s redirected = Unit {0}
Guarded now req s unauthenticated = Unit {0}
Guarded now req s password_change_required = Unit {0}
Guarded now req s not_found = Unit {0}

module _ (now : ℕ) (req : HttpRequest) (s : AuthService) where
  abbrev id : List ℕ
  id = session_cookie req

  abbrev Passed : Outcome × AuthService → Type 0
  Passed r = Guarded now req s r.0

  static-Guarded : Passed (static_fallback now req s)
  unfolding static_fallback
  static-Guarded =
      if_cases Passed (is_public_page req.target) (λ t. inl t)
        (λ _.
          if_cases Passed (validate_session now id s).0 (λ v. inr (validate_true now id s v).0)
            (λ _. tt))

  locked-Guarded :
      (r : Resolved) (t : AuthService)
      → t ≡ s
      → IsLive now id s
      → IsSound req.target r
      → starts_with req.target "/api/" ≡ true
      → Guarded now req s (locked_or_handled now req r t)
  unfolding locked_or_handled
  locked-Guarded r t same live sound api =
      if_cases (Guarded now req s)
        (not r.must_change_exempt
          && starts_with req.target "/api/"
          && must_change_password now id t)
        (λ _. tt)
        (λ f. inr (
          live,
          elim (Bool-cases r.must_change_exempt) [
            | inl exempt ↦ inr (sound.exempt_there exempt)
            | inr due ↦
                inl
                  (ap (λ x. must_change_password now id x) (sym same) ∙ ground (arith, f, due, api))
          ],
        ))

  gated-Guarded :
      (r : Resolved) (k : Access)
      → r.access ≡ k
      → IsSound req.target r
      → is_none r.route ≡ false
      → Passed (gated now req r k s)
  unfolding gated
  gated-Guarded r public q sound there = inl (sound.open_there q)
  gated-Guarded r authenticated q sound there =
      if_cases Passed (validate_session now id s).0
        (λ v.
          let (live, same) = validate_true now id s v in
          locked-Guarded r (validate_session now id s).1 same live sound (sound.under_api q there))
        (λ _. tt)

  -- Whatever the method, the target and the cookie of a request, a handler is called only if its
  -- route is one of the eight that need no session, or the cookie names a session that stands and
  -- has not ended, and whose holder has no password change pending unless the route is the change
  -- of the password itself. A file is served only if it is one of the five public pages, or to
  -- such a session.
  pub route-Guarded : Guarded now req s (route now req s).0
  unfolding route
  route-Guarded =
      let r = resolve req.method req.target in
      if_cases Passed (is_none r.route)
        (λ _. if_cases Passed (is_static_target req.target) (λ _. static-Guarded) (λ _. tt))
        (λ there. gated-Guarded r r.access refl (resolve-IsSound req.method req.target) there)

-- A property of routes that holds of the handler that is called.
abbrev pub Calls : (WebRoute → Type 0) → Outcome → Type 0
Calls P (handled w) = P w
Calls P static_served = Unit {0}
Calls P redirected = Unit {0}
Calls P unauthenticated = Unit {0}
Calls P password_change_required = Unit {0}
Calls P not_found = Unit {0}

-- What the gates do to the sessions, and the route of the handler that they call.
module _ (now : ℕ) (req : HttpRequest) (s : AuthService) where
  abbrev Left : Outcome × AuthService → Type 0
  Left r = (r.1 ≡ s) ⊎ (r.1 ≡ (validate_session now (session_cookie req) s).1)

  gated-Left : (r : Resolved) (k : Access) → Left (gated now req r k s)
  unfolding gated
  gated-Left r public = inl refl
  gated-Left r authenticated =
      if_cases Left (validate_session now (session_cookie req) s).0 (λ _. inr refl) (λ _. inr refl)

  pub route-Left : Left (route now req s)
  unfolding route static_fallback
  route-Left =
      let r = resolve req.method req.target in
      if_cases Left (is_none r.route)
        (λ _.
          if_cases Left (is_static_target req.target)
            (λ _.
              if_cases Left (is_public_page req.target) (λ _. inl refl)
                (λ _.
                  if_cases Left (validate_session now (session_cookie req) s).0 (λ _. inr refl)
                    (λ _. inr refl)))
            (λ _. inl refl))
        (λ _. gated-Left r r.access)

  gated-Calls :
      (P : WebRoute → Type 0) (r : Resolved) (k : Access)
      → P r.route
      → Calls P (gated now req r k s).0
  unfolding gated locked_or_handled
  gated-Calls P r public h = h
  gated-Calls P r authenticated h =
      if_cases (λ (x : Outcome × AuthService). Calls P x.0)
        (validate_session now (session_cookie req) s).0
        (λ _.
          if_cases (Calls P)
            (not r.must_change_exempt
              && starts_with req.target "/api/"
              && must_change_password now (session_cookie req)
                  (validate_session now (session_cookie req) s).1)
            (λ _. tt) (λ _. h))
        (λ _. tt)

  pub route-Calls :
      (P : WebRoute → Type 0)
      → P (resolve req.method req.target).route
      → Calls P (route now req s).0
  unfolding route static_fallback
  route-Calls P h =
      let r = resolve req.method req.target in
      let Passes = λ (x : Outcome × AuthService). Calls P x.0 in
      if_cases Passes (is_none r.route)
        (λ _.
          if_cases Passes (is_static_target req.target)
            (λ _.
              if_cases Passes (is_public_page req.target) (λ _. tt)
                (λ _.
                  if_cases Passes (validate_session now (session_cookie req) s).0 (λ _. tt)
                    (λ _. tt)))
            (λ _. tt))
        (λ _. gated-Calls P r r.access h)
