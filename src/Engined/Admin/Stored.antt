-- ===== src/Engined/Admin/Stored.antt =====
-- What the table holds after a message.
use nf_nms.Common.{ℕ, List, ◌≡◌, refl, ◌∙◌, some, Bool, true, false, ◌||◌, if_cases}
use nf_nms.Common.Dict.{Dict, bytes_eq, bytes_eq_refl, lookup, lookup-insert, lookup-erase}
use nf_nms.Util.Password.{is_empty}
use nf_nms.Engined.Admin.{
  Account, LocalUserUpdate, written_oid, upsert, apply_update, update_password,
}

-- No message touches the account of another name.
pub update_password_others :
    (done : Bool) (uuid : List ℕ) (u : LocalUserUpdate) (table : Dict Account) (other : List ℕ)
    → bytes_eq u.username other ≡ false
    → lookup other (update_password done uuid (some u) table) ≡ lookup other table
unfolding update_password apply_update upsert
update_password_others done uuid u table other h =
    let Same = λ (t : Dict Account). lookup other t ≡ lookup other table in
    if_cases Same (is_empty u.username) (λ _. refl)
      (λ _.
        if_cases Same u.remove
          (λ _. if_cases Same done (λ _. lookup-erase u.username other table ∙ rw h) (λ _. refl))
          (λ _.
            if_cases Same (is_empty u.password_hash || is_empty u.salt) (λ _. refl)
              (λ _.
                if_cases Same done (λ _. lookup-insert u.username other _ table ∙ rw h)
                  (λ _. refl))))

-- A credential that is written is the one that was sent, with no change pending.
pub update_password_stored :
    (uuid : List ℕ) (u : LocalUserUpdate) (table : Dict Account)
    → is_empty u.username ≡ false
    → u.remove ≡ false
    → is_empty u.password_hash ≡ false
    → is_empty u.salt ≡ false
    → (a : Account) × (lookup u.username (update_password true uuid (some u) table) ≡ some a)
      × (a.password_hash ≡ u.password_hash)
      × (a.salt ≡ u.salt)
      × (a.must_change ≡ false)
unfolding update_password apply_update upsert
update_password_stored uuid u table n r h s = (
  record {
    oid = written_oid uuid u.oid (lookup u.username table);
    password_hash = u.password_hash;
    salt = u.salt;
    must_change = false;
  },
  rw (n, r, h, s) (lookup-insert u.username u.username _ table ∙ rw (bytes_eq_refl u.username)),
  refl,
  refl,
  refl,
)
