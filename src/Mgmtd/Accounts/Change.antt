-- ===== src/Mgmtd/Accounts/Change.antt =====
-- A password change, from the browser's request through engined's table to the next sign-in.
use nf_nms.Common.{
  ℕ, List, [], ◌∷◌, ◌≡◌, ◌↔◌, inl, inr, refl, ap, sym, ◌∙◌, Option, some, true, false, Bool-cases,
  arith,
}
use nf_nms.Common.Dict.{Dict, bytes_eq, lookup}
use nf_nms.Util.Password.{is_empty, pbkdf2_hex, pbkdf2_iterations}
use nf_nms.Util.Password.Verify.{IsDecimal}
use nf_nms.Engined.Admin.{Account, LocalUserUpdate, update_password}
use nf_nms.Engined.Admin.Stored.{update_password_others, update_password_stored}
use nf_nms.Mgmtd.Auth.{
  AuthService, Platform, throttled, generate_session_id, check_password, make_credential, login,
}
use nf_nms.Mgmtd.Auth.Sessions.{session_user}
use nf_nms.Mgmtd.Auth.Login.{
  login-make_credential, make_credential-IsMade, make_credential_anywhere,
}
use nf_nms.Mgmtd.Accounts.{
  HttpResponse, fill, persist_credential, select_account, change_for, change_password,
}

-- engined takes the messages one after another, and the database does what it is told.
pub deliver : (uuid : List ℕ) → List LocalUserUpdate → Dict Account → Dict Account
deliver uuid [] table = table
deliver uuid (u ∷ sent) table = deliver uuid sent (update_password true uuid (some u) table)

module _ (p : Platform) (now : ℕ) (salt id old_password new_password : List ℕ)
    (s : AuthService) where
  abbrev user : List ℕ
  user = session_user now id s

  abbrev response : HttpResponse × List LocalUserUpdate
  response = change_password p now salt id (some (old_password, new_password)) s

  -- What a request that is granted has shown, and what it sends.
  record IsGranted : Type 0 where
    there : is_empty user ≡ false
    verified : check_password p user old_password ≡ true
    made : is_empty (make_credential p salt new_password).0 ≡ false
    sent : response.1 ≡ persist_credential user (make_credential p salt new_password) ∷ []

  granted : response.0.status ≡ 200 → IsGranted
  unfolding change_password change_for fill
  granted h = elim (Bool-cases (is_empty new_password)) [
    | inl t ↦ absurd (let q : 400 ≡ 200 = rw t at h in omega arith)
    | inr f ↦ elim (Bool-cases (is_empty user)) [
      | inl t ↦ absurd (let q : 401 ≡ 200 = rw (f, t) at h in omega arith)
      | inr g ↦ elim (Bool-cases (check_password p user old_password)) [
        | inr n ↦ absurd (let q : 401 ≡ 200 = rw (f, g, n) at h in omega arith)
        | inl v ↦ elim (Bool-cases (is_empty (make_credential p salt new_password).0)) [
          | inl t ↦ absurd (let q : 500 ≡ 200 = rw (f, g, v, t) at h in omega arith)
          | inr m ↦ record { there = g; verified = v; made = m; sent = rw (f, g, v, m) }
        ]
      ]
    ]
  ]

  abbrev credential : List ℕ × List ℕ
  credential = make_credential p salt new_password

  abbrev update : LocalUserUpdate
  update = persist_credential user credential

  stored_row :
      (uuid : List ℕ) (table : Dict Account)
      → IsGranted
      → select_account (deliver uuid response.1 table) user
        ≡ some ((user ∷ credential.0 ∷ credential.1 ∷ (102 ∷ []) ∷ []) ∷ [])
  unfolding deliver persist_credential select_account
  stored_row uuid table g =
      let m = make_credential-IsMade p salt new_password g.made in
      let (a, found, hash, kept, change) =
        update_password_stored uuid update table g.there refl g.made
          (ap is_empty m.kept ∙ m.salted) in
      ap (λ sent. select_account (deliver uuid sent table) user) g.sent
      ∙ rw (found, select_account) (rw (hash, kept, change))

  others :
      (uuid : List ℕ) (table : Dict Account) (other : List ℕ)
      → IsGranted
      → bytes_eq user other ≡ false
      → lookup other (deliver uuid response.1 table) ≡ lookup other table
  unfolding deliver persist_credential
  others uuid table other g ne =
      ap (λ sent. lookup other (deliver uuid sent table)) g.sent
      ∙ update_password_others true uuid update table other ne

  -- A request to change a password that is answered with 200 has come with the current password of
  -- the session's account. Once engined has stored what was sent, a sign-in to that account that is
  -- not throttled and gets an identifier succeeds exactly with the passwords whose digest under the
  -- new salt is the new password's, and no other account's row has changed, if the number of rounds
  -- is printed and read back as documented.
  pub change_password_takes_effect :
      (uuid : List ℕ) (table : Dict Account)
      → IsDecimal p.pbkdf2 p.sha256 p.to_string p.atoi
      → (change_password p now salt id (some (old_password, new_password)) s).0.status ≡ 200
      → let table' =
          deliver uuid
            (change_password p now salt id (some (old_password, new_password)) s).1
            table in
        let p' = record p { accounts = select_account table' } in
        (check_password p (session_user now id s) old_password ≡ true)
        × ((later : ℕ) (random : Option (List ℕ)) (password : List ℕ) (t : AuthService)
            → throttled later (session_user now id s) t ≡ false
            → is_empty (generate_session_id random) ≡ false
            → ((login p' later random (session_user now id s) password t).0.success ≡ true) ↔ (
                pbkdf2_hex p.pbkdf2 p.sha256 p.to_string p.atoi password salt pbkdf2_iterations
                ≡ pbkdf2_hex p.pbkdf2 p.sha256 p.to_string p.atoi new_password salt
                    pbkdf2_iterations))
        × ((other : List ℕ)
            → bytes_eq (session_user now id s) other ≡ false
            → lookup other table' ≡ lookup other table)
  change_password_takes_effect uuid table decimal h =
      let g = granted h in
      let m = make_credential-IsMade p salt new_password g.made in
      let accounts = select_account (deliver uuid response.1 table) in
      let p' = record p { accounts = accounts } in
      let made_there = make_credential_anywhere p accounts salt new_password in
      (
        g.verified,
        λ later random password t free there.
            login-make_credential p' later random user password t new_password salt (102 ∷ [])
              decimal m.salted m.digested
              (stored_row uuid table g
                ∙ ap (λ (c : List ℕ × List ℕ). some ((user ∷ c.0 ∷ c.1 ∷ (102 ∷ []) ∷ []) ∷ []))
                    (sym made_there))
              free there,
        λ other ne. others uuid table other g ne,
      )
