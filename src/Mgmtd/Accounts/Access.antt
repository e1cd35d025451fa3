-- ===== src/Mgmtd/Accounts/Access.antt =====
-- Who may change an account.
use mathlib.Core.Bool.{false≢true}
use mathlib.Core.Option.{some-injective}
use nf_nms.Common.{
  ℕ, ◌≤◌, List, [], ◌∷◌, ◌≡◌, ◌≢◌, ap, ◌∙◌, ◌⊎◌, inl, inr, refl, sym, Option, none, some, true,
  false, ◌&&◌, ◌||◌, if_cases, Bool-cases, ltb, not_ltb→le, length, arith,
}
use nf_nms.Common.Dict.{bytes_eq, bytes_eq_refl}
use nf_nms.Util.Password.{is_empty}
use nf_nms.Engined.Admin.{LocalUserUpdate}
use nf_nms.Mgmtd.Auth.{AuthService, Platform, make_credential}
use nf_nms.Mgmtd.Auth.Sessions.{session_user, session_is_admin}
use nf_nms.Mgmtd.Accounts.{
  AccountInput, HttpResponse, min_password_chars, is_only, remove_account, set_account,
  credential_store,
}

-- What a message to engined about an account takes: an admin's session, and for a removal that it
-- is not the admin's own account, and that the database has answered the count of the accounts
-- and has not answered the text "1".
pub record IsAllowed (p : Platform) (now : ℕ) (salt id : List ℕ)
    (count : Option (List (List (List ℕ)))) (input : AccountInput) (s : AuthService)
    (u : LocalUserUpdate) : Type 0 where
  pub admin : session_is_admin now id s ≡ true
  pub about : u.username ≡ input.username
  pub removal : u.remove ≡ input.remove
  pub others : input.remove ≡ true → bytes_eq input.username (session_user now id s) ≡ false
  pub counted : input.remove ≡ true → count ≢ none
  pub not_one :
      input.remove ≡ true
      → (columns : List (List ℕ)) (rows : List (List (List ℕ)))
      → count ≢ some (((49 ∷ []) ∷ columns) ∷ rows)
  pub long_enough : input.remove ≡ false → min_password_chars ≤ length input.password

module _ (p : Platform) (now : ℕ) (salt id : List ℕ) (s : AuthService) where
  abbrev Allowed : Option (List (List (List ℕ))) → AccountInput → List LocalUserUpdate → Type 0
  Allowed count input sent =
      (sent ≡ [])
      ⊎ ((u : LocalUserUpdate) × (sent ≡ u ∷ []) × IsAllowed p now salt id count input s u)

  one_is_only :
      (rows rest : List (List (List ℕ))) (columns : List (List ℕ))
      → is_only rows ≡ false
      → some rows ≢ some (((49 ∷ []) ∷ columns) ∷ rest)
  unfolding is_only
  one_is_only rows rest columns h e =
      let q = sym (ap is_only (some-injective rows (((49 ∷ []) ∷ columns) ∷ rest) e)) ∙ h in
      absurd (false≢true (sym q ∙ bytes_eq_refl (49 ∷ [])))

  remove-Allowed :
      (count : Option (List (List (List ℕ)))) (input : AccountInput)
      → session_is_admin now id s ≡ true
      → input.remove ≡ true
      → bytes_eq input.username (session_user now id s) ≡ false
      → Allowed count input (remove_account p count input).1
  unfolding remove_account
  remove-Allowed none input admin r o = inl refl
  remove-Allowed (some rows) input admin r o =
      if_cases (λ (x : HttpResponse × List LocalUserUpdate). Allowed (some rows) input x.1)
        (is_only rows) (λ _. inl refl)
        (λ more. inr (
          record {
            oid = input.oid;
            username = input.username;
            remove = true;
            password_hash = [];
            salt = [];
            must_change = false;
          },
          refl,
          record {
            admin = admin;
            about = refl;
            removal = sym r;
            others = λ _. o;
            counted = λ _ e. absurd (cc);
            not_one = λ _ columns rest. one_is_only rows rest columns more;
            long_enough = λ f. absurd (ground (arith, f, r));
          },
        ))

  set-Allowed :
      (count : Option (List (List (List ℕ)))) (input : AccountInput)
      → session_is_admin now id s ≡ true
      → input.remove ≡ false
      → Allowed count input (set_account p salt input).1
  unfolding set_account
  set-Allowed count input admin r =
      let (hash, kept_salt) = make_credential p salt input.password in
      elim (Bool-cases (ltb (length input.password) min_password_chars)) [
        | inl t ↦ inl (rw t)
        | inr f ↦ inr (
          record {
            oid = input.oid;
            username = input.username;
            remove = false;
            password_hash = hash;
            salt = kept_salt;
            must_change = false;
          },
          rw f,
          record {
            admin = admin;
            about = refl;
            removal = sym r;
            others = λ t. absurd (ground (arith, t, r));
            counted = λ t. absurd (ground (arith, t, r));
            not_one = λ t. absurd (ground (arith, t, r));
            long_enough = λ _. not_ltb→le (length input.password) min_password_chars f;
          },
        )
      ]

  -- Whatever the body of a request to change an account, at most one message goes to engined. It
  -- goes only for a session whose role is admin, and is about the account that was named; a
  -- removal goes only for another account than the session's own, and only if the database has
  -- answered the count of the accounts and not with the text "1"; a password only if it has eight
  -- bytes.
  pub credential_store-IsAllowed :
      (count : Option (List (List (List ℕ)))) (input : AccountInput)
      → let sent = (credential_store p now salt id count (some input) s).1 in
        (sent ≡ [])
        ⊎ ((u : LocalUserUpdate) × (sent ≡ u ∷ []) × IsAllowed p now salt id count input s u)
  unfolding credential_store
  credential_store-IsAllowed count input =
      let Holds = λ (x : HttpResponse × List LocalUserUpdate). Allowed count input x.1 in
      if_cases Holds (is_empty input.oid || is_empty input.username) (λ _. inl refl)
        (λ _. elim (Bool-cases (session_is_admin now id s)) [
          | inr f ↦ rw f (inl refl)
          | inl admin ↦ rw admin (
              if_cases Holds (input.remove && bytes_eq input.username (session_user now id s))
                (λ _. inl refl)
                (λ o.
                  if_cases Holds input.remove
                    (λ r. remove-Allowed count input admin r (ground (arith, o, r)))
                    (λ r. set-Allowed count input admin r)))
        ])
