-- ===== src/Mgmtd/Web/Table.antt =====
-- What the route table says of itself.
use Prim.Native.String.{String, ◌++◌ as str_append}
use text.Mathlib.Text.{starts_with}
use text.Mathlib.TextEquality.{eq_iff, starts_with_iff}
use text.Mathlib.TextPositions.{eq_refl}
use text.Mathlib.TextLemmas.{append-nil as text_append_nil, append_assoc as text_assoc}
use nf_nms.Common.{
  List, [], ◌∷◌, ◌++◌, ◌≡◌, refl, ap, sym, subst, ◌∙◌, Bool, true, false, ◌&&◌, ◌||◌, not, if_cases,
  arith,
}
use nf_nms.Mgmtd.Web.{Resolved, nothing, is_none, of_row, matches, hit, resolve_in, resolve}
use nf_nms.Mgmtd.Web.Routes.{
  WebRoute, metric, health, login, logout, sso_info, sso_login, saml_acs, saml_result,
  change_password, Access, public, authenticated, Match, exact, prefix, Row, routes,
}

-- The routes that need no session, and the one that a pending password change leaves open.
pub is_open : WebRoute → Bool
is_open metric = true
is_open health = true
is_open login = true
is_open logout = true
is_open sso_info = true
is_open sso_login = true
is_open saml_acs = true
is_open saml_result = true
is_open _ = false

pub is_escape : WebRoute → Bool
is_escape change_password = true
is_escape _ = false

abbrev is_public : Access → Bool
is_public public = true
is_public authenticated = false

-- A row is open to all only where it should be, exempt only where it should be, and behind the
-- prefix that the lock looks for unless it is open.
sound : Row → Bool
sound r =
    (is_open r.route || not (is_public r.access))
    && (is_escape r.route || not r.must_change_exempt)
    && (is_public r.access || starts_with r.path "/api/")

all_sound : List Row → Bool
all_sound [] = true
all_sound (r ∷ rows) = sound r && all_sound rows

routes_sound : all_sound routes ≡ true
unfolding all_sound sound routes is_open is_escape
routes_sound = refl

-- No earlier row takes the request that a row is written for.
taken : Row → List Row → Bool
taken r [] = false
taken r (q ∷ seen) = hit r.method r.path q || taken r seen

unshadowed : List Row → List Row → Bool
unshadowed seen [] = true
unshadowed seen (r ∷ rows) = not (taken r seen) && unshadowed (r ∷ seen) rows

routes_unshadowed : unshadowed [] routes ≡ true
unfolding unshadowed taken routes hit matches
routes_unshadowed = refl

-- What a target that matches a path has of the path.
matches-prefix :
    (m : Match) (target path start : String)
    → matches m target path ≡ true
    → starts_with path start ≡ true
    → starts_with target start ≡ true
unfolding matches
matches-prefix exact target path start h k =
    subst (λ t. starts_with t start ≡ true) (sym ((eq_iff target path).0 h)) k
matches-prefix prefix target path start h k =
    let (u, a) = (starts_with_iff target path).0 h in
    let (v, b) = (starts_with_iff path start).0 k in
    (starts_with_iff target start).1
      (str_append v u, sym (text_assoc start v u) ∙ ap (λ w. str_append w u) b ∙ a)

-- What the gates may rely on in a row that has been found.
pub record IsSound (target : String) (r : Resolved) : Type 0 where
  pub open_there : r.access ≡ public → is_open r.route ≡ true
  pub exempt_there : r.must_change_exempt ≡ true → is_escape r.route ≡ true
  pub under_api :
      r.access ≡ authenticated → is_none r.route ≡ false → starts_with target "/api/" ≡ true

row-IsSound :
    (method target : String) (r : Row)
    → sound r ≡ true
    → hit method target r ≡ true
    → IsSound target (of_row r)
unfolding sound hit
row-IsSound method target r ok found =
    let fits : matches r.match target r.path ≡ true = ground (arith, found) in
    record {
      open_there = λ q. ground (arith, ok, q);
      exempt_there = λ q. ground (arith, ok, q);
      under_api = λ q _. matches-prefix r.match target r.path "/api/" fits (ground (arith, ok, q));
    }

resolve_in-IsSound :
    (method target : String) (rows : List Row)
    → all_sound rows ≡ true
    → IsSound target (resolve_in method target rows)
unfolding resolve_in nothing all_sound is_none
resolve_in-IsSound method target [] ok = record {
  open_there = λ q. ground (arith, q);
  exempt_there = λ q. ground (arith, q);
  under_api = λ _ q. ground (arith, q);
}
resolve_in-IsSound method target (r ∷ rows) ok =
    if_cases (IsSound target) (hit method target r)
      (λ found. row-IsSound method target r (ground (arith, ok)) found)
      (λ _. resolve_in-IsSound method target rows (ground (arith, ok)))

pub resolve-IsSound : (method target : String) → IsSound target (resolve method target)
unfolding resolve
resolve-IsSound method target = resolve_in-IsSound method target routes routes_sound

matches_self : (m : Match) (path : String) → matches m path path ≡ true
unfolding matches
matches_self exact path = eq_refl path
matches_self prefix path = (starts_with_iff path path).1 ("", text_append_nil path)

hit_self : (r : Row) → hit r.method r.path r ≡ true
unfolding hit
hit_self r = rw (eq_refl r.method, matches_self r.match r.path)

resolve_own :
    (before : List Row) (r : Row) (after : List Row)
    → taken r before ≡ false
    → resolve_in r.method r.path (before ++ (r ∷ after)) ≡ of_row r
unfolding resolve_in taken
resolve_own [] r after h = rw (hit_self r)
resolve_own (q ∷ before) r after h = ground (arith, h, resolve_own before r after)

unshadowed_lem :
    (seen before : List Row) (r : Row) (after : List Row)
    → unshadowed seen (before ++ (r ∷ after)) ≡ true
    → (taken r before ≡ false) × (taken r seen ≡ false)
unfolding unshadowed taken
unshadowed_lem seen [] r after h = ground (arith, h)
unshadowed_lem seen (q ∷ before) r after h =
    let (a, b) = unshadowed_lem (q ∷ seen) before r after (ground (arith, h)) in
    ground (arith, a, b)

-- Every row of the table is reached: a request with the method and the path of a row, without a
-- query, is given that row's route and policies, so no earlier row, whose path may be the
-- beginning of this one, claims it.
pub resolve-row :
    (before : List Row) (r : Row) (after : List Row)
    → routes ≡ before ++ (r ∷ after)
    → resolve r.method r.path ≡ of_row r
unfolding resolve
resolve-row before r after h =
    let u = sym (ap (unshadowed []) h) ∙ routes_unshadowed in
    ap (resolve_in r.method r.path) h
    ∙ resolve_own before r after (unshadowed_lem [] before r after u).0
