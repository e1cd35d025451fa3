-- ===== src/Mgmtd/Auth/Valid.antt =====
-- What it takes for a session to be valid.
use nf_nms.Common.{
  ℕ, ◌≤◌, List, ◌≡◌, inl, inr, refl, Option, none, some, true, false, Bool-cases, ltb, not_ltb→le,
  arith,
}
use nf_nms.Common.Dict.{lookup}
use nf_nms.Util.Password.{is_empty}
use nf_nms.Mgmtd.Auth.{Session, AuthService}
use nf_nms.Mgmtd.Auth.Sessions.{live, checked, validate_session}

-- The session of an identifier stands and has not ended.
pub record IsLive (now : ℕ) (id : List ℕ) (s : AuthService) : Type 0 where
  pub named : is_empty id ≡ false
  pub session : Session
  pub found : lookup id s.sessions ≡ some session
  pub in_time : now ≤ session.expires_at

checked-true :
    (now : ℕ) (id : List ℕ) (o : Option Session) (s : AuthService)
    → (checked now id o s).0 ≡ true
    → (x : Session) × (o ≡ some x) × (now ≤ x.expires_at) × ((checked now id o s).1 ≡ s)
unfolding checked
checked-true now id none s h = absurd (ground (arith, h))
checked-true now id (some x) s h = elim (Bool-cases (ltb x.expires_at now)) [
  | inl t ↦ absurd (ground (arith, h, t))
  | inr f ↦ (x, refl, not_ltb→le x.expires_at now f, rw f)
]

pub validate_true :
    (now : ℕ) (id : List ℕ) (s : AuthService)
    → (validate_session now id s).0 ≡ true
    → IsLive now id s × ((validate_session now id s).1 ≡ s)
unfolding validate_session
validate_true now id s h = elim (Bool-cases (is_empty id)) [
  | inl t ↦ absurd (ground (arith, h, t))
  | inr f ↦
      let (x, found, in_time, same) =
        checked-true now id (lookup id s.sessions) s (ground (arith, h, f)) in
      (record { named = f; session = x; found = found; in_time = in_time }, rw f same)
]

pub IsLive-live :
    {now : ℕ} {id : List ℕ} {s : AuthService} (l : IsLive now id s) → live now id s ≡ some l.session
unfolding live
IsLive-live {now} l =
    let alive : ltb l.session.expires_at now ≡ false = ground (arith, l.in_time) in
    rw (l.found, live) (rw alive)
