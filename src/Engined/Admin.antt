-- ===== src/Engined/Admin.antt =====
-- engined/service/admin/AdminService.{h,cpp}: the only writer of the accounts. The table
-- `local_users` is a map by the name; a statement of SQL is what it does to the map, if the
-- database answers that it was done. A message is what the JSON library reads of its payload.
pub mod Stored
use nf_nms.Common.{ℕ, List, [], ◌∷◌, Option, none, some, Bool, true, false, ◌||◌, if◌then◌else◌}
use nf_nms.Common.Dict.{Dict, lookup, insert, erase}
use nf_nms.Util.Password.{is_empty}
use nf_nms.Ipc.Message.{IpcMessage}

pub record Account : Type 0 where
  pub oid : List ℕ
  pub password_hash : List ℕ
  pub salt : List ℕ
  pub must_change : Bool

-- The fields of a LocalUserUpdate, empty and false where they are missing.
pub record LocalUserUpdate : Type 0 where
  pub oid : List ℕ
  pub username : List ℕ
  pub remove : Bool
  pub password_hash : List ℕ
  pub salt : List ℕ
  pub must_change : Bool

-- `COALESCE(NULLIF($5,''), gen_random_uuid()::text)`
pub issued : (uuid oid : List ℕ) → List ℕ
issued uuid oid = if is_empty oid then uuid else oid

-- An account that is there keeps its `oid`.
unfoldable pub written_oid : (uuid oid : List ℕ) → Option Account → List ℕ
unfolding issued
written_oid uuid oid none = issued uuid oid
written_oid uuid oid (some a) = a.oid

pub upsert : (uuid : List ℕ) → LocalUserUpdate → Dict Account → Dict Account
upsert uuid u table =
    insert u.username
      (record {
        oid = written_oid uuid u.oid (lookup u.username table);
        password_hash = u.password_hash;
        salt = u.salt;
        must_change = false;
      })
      table

pub apply_update : (done : Bool) (uuid : List ℕ) → LocalUserUpdate → Dict Account → Dict Account
apply_update done uuid u table =
    if is_empty u.username
    then table
    else if u.remove
    then if done then erase u.username table else table
    else if is_empty u.password_hash || is_empty u.salt
    then table
    else if done
    then upsert uuid u table
    else table

-- `updatePassword`, none where the payload is not JSON.
pub update_password :
    (done : Bool) (uuid : List ℕ) → Option LocalUserUpdate → Dict Account → Dict Account
unfolding apply_update
update_password done uuid none table = table
update_password done uuid (some u) table = apply_update done uuid u table

-- `handleEvent`, with what the JSON library reads of a payload.
unfoldable pub handle_event :
    (parse : List ℕ → Option LocalUserUpdate) (done : Bool) (uuid : List ℕ)
    → Option IpcMessage
    → Dict Account
    → Dict Account
unfolding update_password
handle_event parse done uuid none table = table
handle_event parse done uuid (some m) table =
    if is_empty m.payload then table else update_password done uuid (parse m.payload) table
