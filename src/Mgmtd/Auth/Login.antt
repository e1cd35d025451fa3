-- ===== src/Mgmtd/Auth/Login.antt =====
-- What a sign-in gives.
use mathlib.Core.Bool.{false≢true}
use nf_nms.Common.{
  ℕ, ◌+◌, ◌≤◌, ◌<◌, ◌^◌, List, [], ◌∷◌, ◌≡◌, ◌⊎◌, ◌↔◌, refl, ap, sym, ◌∙◌, Option, none, some, true,
  false, ◌||◌, not, Bool-cases, inl, inr, ltb, add_size, add_size_lem, arith,
}
use nf_nms.Common.Dict.{bytes_eq, bytes_eq_refl, lookup, insert, erase, lookup-insert, lookup-erase}
use nf_nms.Util.Password.{is_empty, hash_password, pbkdf2_hex, pbkdf2_iterations}
use nf_nms.Util.Password.Verify.{IsDecimal, verify_password-hash_password}
use nf_nms.Mgmtd.Auth.{
  Session, Stored, AuthService, Platform, LoginResult, refused, throttled, generate_session_id,
  read_account, read_rows, declared_role, note_login_failure, verifies, signed_in, login,
  make_credential,
}
use nf_nms.Mgmtd.Auth.Sessions.{
  live, checked, validate_session, session_user, session_role, must_change_password,
}

-- A session that is found and has not ended, as each of the queries reads it.
pub record Reads (id : List ℕ) (x : Session) (later : ℕ) (t : AuthService) : Type 0 where
  pub valid : validate_session later id t ≡ (true, t)
  pub user : session_user later id t ≡ x.username
  pub role : session_role later id t ≡ x.role
  pub must_change : must_change_password later id t ≡ x.must_change

live_lem :
    (id : List ℕ) (x : Session) (later : ℕ) (t : AuthService)
    → lookup id t.sessions ≡ some x
    → ltb x.expires_at later ≡ false
    → live later id t ≡ some x
unfolding live
live_lem id x later t found alive = rw (found, live) (rw alive)

found-Reads :
    (id : List ℕ) (x : Session) (later : ℕ) (t : AuthService)
    → is_empty id ≡ false
    → lookup id t.sessions ≡ some x
    → ltb x.expires_at later ≡ false
    → Reads id x later t
unfolding validate_session checked session_user session_role must_change_password
found-Reads id x later t there found alive =
    let l = live_lem id x later t found alive in
    record {
      valid = rw there (ap (λ o. checked later id o t) found ∙ rw alive);
      user = rw (l, session_user);
      role = rw (l, session_role);
      must_change = rw (l, must_change_password);
    }

module _ (p : Platform) (now : ℕ) (random : Option (List ℕ)) (username password : List ℕ)
    (s : AuthService) where
  abbrev account : Stored
  account = read_account p username

  abbrev id : List ℕ
  id = generate_session_id random

  -- The session that a sign-in by a password starts.
  abbrev pub session_of : Session
  session_of = record {
    expires_at = add_size now s.session_ttl_sec;
    username = (read_account p username).username;
    role = declared_role p (read_account p username).username;
    must_change = (read_account p username).must_change;
  }

  -- The state after a sign-in that succeeds.
  abbrev inside : AuthService
  inside = record s {
    throttles = erase username s.throttles;
    sessions = insert id session_of s.sessions;
  }

  -- What a sign-in asks for.
  pub record IsAdmitted : Type 0 where
    pub free : throttled now username s ≡ false
    pub found : (read_account p username).found ≡ true
    pub hashed : is_empty (read_account p username).password_hash ≡ false
    pub verified : verifies p password (read_account p username) ≡ true
    pub random_there : is_empty (generate_session_id random) ≡ false

  Refused : LoginResult × AuthService → Type 0
  Refused (r, t) = (r.success ≡ false) × (t.sessions ≡ s.sessions)

  Granted : LoginResult × AuthService → Type 0
  Granted (r, t) = IsAdmitted × (r.success ≡ true) × (r.session_id ≡ id) × (t ≡ inside)

  login_cases :
      Refused (login p now random username password s)
      ⊎ Granted (login p now random username password s)
  unfolding login signed_in Refused Granted note_login_failure refused
  login_cases = elim (Bool-cases (throttled now username s)) [
    | inl t ↦ inl (rw t (refl, refl))
    | inr free ↦ elim (Bool-cases (not account.found || is_empty account.password_hash)) [
      | inl t ↦ inl (rw (free, t) (refl, refl))
      | inr known ↦ elim (Bool-cases (verifies p password account)) [
        | inr f ↦ inl (rw (free, known, f) (refl, refl))
        | inl verified ↦ elim (Bool-cases (is_empty id)) [
          | inl t ↦ inl (rw (free, known, verified, t) (refl, refl))
          | inr there ↦ inr (
            record {
              free = free;
              found = ground (arith, known);
              hashed = ground (arith, known);
              verified = verified;
              random_there = there;
            },
            rw (free, known, verified, there),
            rw (free, known, verified, there),
            rw (free, known, verified, there),
          )
        ]
      ]
    ]
  ]

  admits : IsAdmitted → (login p now random username password s).0.success ≡ true
  unfolding login signed_in
  admits a =
      let known : (not account.found || is_empty account.password_hash) ≡ false =
        rw (a.found, a.hashed) in
      rw (a.free, known, a.verified, a.random_there)

  found_inside : lookup id inside.sessions ≡ some session_of
  found_inside = lookup-insert id id session_of s.sessions ∙ rw (bytes_eq_refl id)

  inside-Reads :
      (later : ℕ)
      → is_empty id ≡ false
      → now + s.session_ttl_sec < 2 ^ 64
      → later ≤ now + s.session_ttl_sec
      → Reads id session_of later inside
  inside-Reads later there fits h =
      let alive : ltb session_of.expires_at later ≡ false =
        ground (arith, add_size_lem now s.session_ttl_sec fits) in
      found-Reads id session_of later inside there found_inside alive

  -- A sign-in succeeds exactly if the name is not throttled, the account is found with a hash, the
  -- password verifies against it and a session identifier can be generated. Then the session that
  -- is handed out is good for the whole time to live and is read as this account's, with the role
  -- that the configuration declares, and the name is no longer throttled, if the end does not
  -- overflow. A sign-in that fails changes no session.
  pub login_lem :
      let (r, t) = login p now random username password s in
      ((r.success ≡ true) ↔ IsAdmitted)
      × (r.success ≡ false → t.sessions ≡ s.sessions)
      × (r.success ≡ true
          → now + s.session_ttl_sec < 2 ^ 64
          → ((later : ℕ) → later ≤ now + s.session_ttl_sec → Reads r.session_id session_of later t)
            × (lookup username t.throttles ≡ none))
  unfolding Refused Granted
  login_lem = elim login_cases [
    | inl (failed, same) ↦ (
      (λ t. absurd (false≢true (sym failed ∙ t)), admits),
      λ _. same,
      λ t. absurd (false≢true (sym failed ∙ t)),
    )
    | inr (a, done, issued, e) ↦ (
      (λ _. a, admits),
      λ f. absurd (false≢true (sym f ∙ done)),
      λ _ fits. (
        λ later h. rw (issued, e) (inside-Reads later a.random_there fits h),
        ap (λ x. lookup username x.throttles) e
            ∙ lookup-erase username username s.throttles
            ∙ rw (bytes_eq_refl username),
      ),
    )
  ]

  abbrev digest : List ℕ → List ℕ → List ℕ
  digest text salt = pbkdf2_hex p.pbkdf2 p.sha256 p.to_string p.atoi text salt pbkdf2_iterations

  abbrev hash_of : List ℕ → List ℕ → List ℕ
  hash_of text salt = hash_password p.pbkdf2 p.sha256 p.to_string p.atoi text salt

  hash_there :
      (chosen salt : List ℕ)
      → is_empty (digest chosen salt) ≡ false
      → is_empty (hash_of chosen salt) ≡ false
  unfolding hash_password is_empty
  hash_there chosen salt h = rw h

  made :
      (chosen salt : List ℕ)
      → is_empty salt ≡ false
      → is_empty (hash_of chosen salt) ≡ false
      → make_credential p salt chosen ≡ (hash_of chosen salt, salt)
  unfolding make_credential
  made chosen salt s h = rw (s, h)

  row_of : List ℕ → List ℕ → List ℕ → Stored
  row_of hash salt must = record {
    username = username;
    password_hash = hash;
    salt = salt;
    must_change = bytes_eq must (116 ∷ []);
    found = true;
  }

  read_row :
      (hash salt must : List ℕ)
      → p.accounts username ≡ some ((username ∷ hash ∷ salt ∷ must ∷ []) ∷ [])
      → account ≡ row_of hash salt must
  unfolding read_account read_rows row_of
  read_row hash salt must h = rw (h, read_account)

  -- Where the account's row holds what `makeCredential` makes of a chosen password, a sign-in that
  -- is not throttled and gets an identifier succeeds exactly with the passwords whose digest under
  -- that salt is the chosen one's, if the salt and the digest could be
  -- generated and the number of rounds is printed and read back as documented.
  pub login-make_credential :
      (chosen salt must : List ℕ)
      → IsDecimal p.pbkdf2 p.sha256 p.to_string p.atoi
      → is_empty salt ≡ false
      → is_empty (pbkdf2_hex p.pbkdf2 p.sha256 p.to_string p.atoi chosen salt pbkdf2_iterations)
        ≡ false
      → let (hash, kept) = make_credential p salt chosen in
        p.accounts username ≡ some ((username ∷ hash ∷ kept ∷ must ∷ []) ∷ [])
        → throttled now username s ≡ false
        → is_empty (generate_session_id random) ≡ false
        → let (r, t) = login p now random username password s in
          (r.success ≡ true) ↔ (
            pbkdf2_hex p.pbkdf2 p.sha256 p.to_string p.atoi password salt pbkdf2_iterations
            ≡ pbkdf2_hex p.pbkdf2 p.sha256 p.to_string p.atoi chosen salt pbkdf2_iterations)
  unfolding verifies row_of
  login-make_credential chosen salt must decimal salted digested row free there =
      let hashed = hash_there chosen salt digested in
      let row' : p.accounts username
          ≡ some ((username ∷ hash_of chosen salt ∷ salt ∷ must ∷ []) ∷ []) =
        row
        ∙ ap (λ (c : List ℕ × List ℕ). some ((username ∷ c.0 ∷ c.1 ∷ must ∷ []) ∷ []))
            (made chosen salt salted hashed) in
      let e = read_row (hash_of chosen salt) salt must row' in
      let (v, _) =
        verify_password-hash_password p.pbkdf2 p.sha256 p.to_string p.atoi chosen salt password salt
          decimal digested in
      (
        λ done. v.0 (sym (ap (verifies p password) e) ∙ (login_lem.0.0 done).verified),
        λ same. admits (record {
          free = free;
          found = ap (λ (a : Stored). a.found) e;
          hashed = ap (λ (a : Stored). is_empty a.password_hash) e ∙ hashed;
          verified = ap (verifies p password) e ∙ v.1 same;
          random_there = there;
        }),
      )

-- A credential that was made: its parts could be generated.
pub record IsMade (p : Platform) (salt chosen : List ℕ) : Type 0 where
  pub salted : is_empty salt ≡ false
  pub digested :
      is_empty (pbkdf2_hex p.pbkdf2 p.sha256 p.to_string p.atoi chosen salt pbkdf2_iterations)
      ≡ false
  pub kept : (make_credential p salt chosen).1 ≡ salt

pub make_credential-IsMade :
    (p : Platform) (salt chosen : List ℕ)
    → is_empty (make_credential p salt chosen).0 ≡ false
    → IsMade p salt chosen
unfolding make_credential hash_password is_empty
make_credential-IsMade p salt chosen h = elim (Bool-cases (is_empty salt)) [
  | inl t ↦ let q : true ≡ false = rw t at h in absurd (false≢true (sym q))
  | inr f ↦
      elim (Bool-cases (
        is_empty (pbkdf2_hex p.pbkdf2 p.sha256 p.to_string p.atoi chosen salt pbkdf2_iterations))) [
          | inl t ↦ let q : true ≡ false = rw (f, t) at h in absurd (false≢true (sym q))
          | inr g ↦ record { salted = f; digested = g; kept = rw (f, g) }
        ]
]

-- The accounts have no part in a credential.
pub make_credential_anywhere :
    (p : Platform) (accounts : List ℕ → Option (List (List (List ℕ)))) (salt chosen : List ℕ)
    → make_credential (record p { accounts = accounts }) salt chosen ≡ make_credential p salt chosen
unfolding make_credential
make_credential_anywhere p accounts salt chosen = refl
