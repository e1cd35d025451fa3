-- ===== src/Engined/Commit.antt =====
-- engined/service/commit/CommitService.{h,cpp}: commits wait in a queue and are applied one at a
-- time. What the service sends or posts is a list of effects, in order.
pub mod Queue
pub mod Order
use Prim.Native.String.{String, len}
use nf_nms.Common.{
  ℕ, suc, ◌+◌, List, [], ◌∷◌, ◌++◌, Option, none, some, Bool, true, false, ◌||◌, if◌then◌else◌, ltb,
  ◌==◌, length, map,
}
use nf_nms.Ipc.Protocol.Daemon.{IpcDaemon}

pub data TaskStatus : Type 0 where
  pending running done failed : TaskStatus

pub record Task : Type 0 where
  pub id : ℕ
  pub payload : List ℕ
  pub status : TaskStatus

pub record CommitService : Type 0 where
  pub queue : List Task
  pub next_id : ℕ

pub new : CommitService
new = record { queue = []; next_id = 1 }

pub data Effect : Type 0 where
  status_sent : List (ℕ × TaskStatus) → Effect
  apply_posted : Effect
  config_apply_sent : IpcDaemon → Effect
  cache_invalidated reload_scheduled : Effect

abbrev pub is_pending : Task → Bool
is_pending t = elim t.status [ pending ↦ true | _ ↦ false ]

abbrev pub is_running : Task → Bool
is_running t = elim t.status [ running ↦ true | _ ↦ false ]

abbrev pub is_finished : Task → Bool
is_finished t = elim t.status [ done ↦ true | failed ↦ true | _ ↦ false ]

abbrev pub with_status : Task → TaskStatus → Task
with_status t s = record t { status = s }

-- `sendQueueStatus`
pub snapshot : List Task → Effect
snapshot queue = status_sent (map (λ (t : Task). (t.id, t.status)) queue)

-- `std::any_of` over the running tasks
pub any_running : List Task → Bool
any_running [] = false
any_running (t ∷ ts) = is_running t || any_running ts

-- The first pending task set running, if there is one.
pub start_first : List Task → Bool × List Task
start_first [] = (false, [])
start_first (t ∷ ts) =
    let (found, rest) = start_first ts in
    if is_pending t then (true, with_status t running ∷ ts) else (found, t ∷ rest)

-- `startNext`
pub start_next : CommitService → CommitService × List Effect
start_next s =
    let (found, queue) = start_first s.queue in
    if found then (record s { queue = queue }, snapshot queue ∷ apply_posted ∷ []) else (s, [])

-- The first running task given its outcome.
pub finish_first : TaskStatus → List Task → List Task
finish_first outcome [] = []
finish_first outcome (t ∷ ts) =
    if is_running t then with_status t outcome ∷ ts else t ∷ finish_first outcome ts

-- The loop that pops the front while more than five tasks are held or the front is finished.
pub trim : List Task → List Task
trim [] = []
trim (t ∷ ts) = if ltb 5 (length (t ∷ ts)) || is_finished t then trim ts else t ∷ ts

-- One action after another.
abbrev pub then_start : List Effect → CommitService → CommitService × List Effect
then_start before s = let (s', after) = start_next s in (s', before ++ after)

-- ReceiveSettingsCommit; a missing message and an empty payload are refused alike.
pub receive_settings_commit : CommitService → List ℕ → CommitService × List Effect
receive_settings_commit s [] = (s, [])
receive_settings_commit s (b ∷ bs) =
    if any_running queue then (s', snapshot queue ∷ []) else then_start (snapshot queue ∷ []) s'
  where
    queue : List Task
    queue = s.queue ++ (record { id = s.next_id; payload = b ∷ bs; status = pending } ∷ [])

    s' : CommitService
    s' = record { queue = queue; next_id = s.next_id + 1 }

-- ReloadComplete and ReloadFailed, which differ in the outcome alone.
pub reload_ended : TaskStatus → CommitService → CommitService × List Effect
reload_ended outcome s =
    then_start (snapshot (trim (finish_first outcome s.queue)) ∷ [])
      (record s { queue = trim (finish_first outcome s.queue) })

-- What the JSON library reads from a payload: one entry of the array is an object's `scope`,
-- `domain` and `values`.
pub data Values (P : Type 0) : Type 0 where
  missing not_object : Values P
  object : P → Values P

pub record Change (P : Type 0) : Type 0 where
  pub scope : String
  pub domain : String
  pub values : Values P

pub data Parsed (P : Type 0) : Type 0 where
  unreadable not_array : Parsed P
  array : List (Change P) → Parsed P

-- `kServiceDaemons`
abbrev pub service_daemons : List IpcDaemon
service_daemons =
    IpcDaemon.authd ∷ IpcDaemon.probed ∷ IpcDaemon.collectord ∷ IpcDaemon.topologyd ∷ IpcDaemon.apid
    ∷ []

pub first_running : List Task → Option Task
first_running [] = none
first_running (t ∷ ts) = if is_running t then some t else first_running ts

-- The configuration tree with its `merge_patch`, the parser and `commitConfig` are the JSON
-- library's and the database's.
module _ {Root P : Type 0} (parse : List ℕ → Parsed P) (merge : Root → String → String → P → Root)
    (commit_config : Root → Bool) where
  -- The loop over the changes: the tree and the number that were staged.
  pub stage : List (Change P) → Root → ℕ → Root × ℕ
  stage [] root applied = (root, applied)
  stage (c ∷ cs) root applied =
      if len c.scope == 0 || len c.domain == 0 then stage cs root applied else elim c.values [
        | missing ↦ stage cs root applied
        | not_object ↦ stage cs root applied
        | object p ↦ stage cs (merge root c.scope c.domain p) (applied + 1)
      ]

  -- Every failing exit: the task fails, the queue is reported and the next task starts.
  pub fail_running : CommitService → CommitService × List Effect
  fail_running s =
      then_start (snapshot (finish_first failed s.queue) ∷ [])
        (record s { queue = finish_first failed s.queue })

  apply_staged : CommitService → Root × ℕ → CommitService × List Effect
  apply_staged s (root, applied) =
      if applied == 0
      then fail_running s
      else if commit_config root
      then (s, map config_apply_sent service_daemons ++ (cache_invalidated ∷ reload_scheduled ∷ []))
      else fail_running s

  apply_parsed : CommitService → Root → Parsed P → CommitService × List Effect
  unfolding apply_staged
  apply_parsed s root unreadable = fail_running s
  apply_parsed s root not_array = fail_running s
  apply_parsed s root (array changes) = apply_staged s (stage changes root 0)

  -- ApplyCommit, over the running configuration's tree.
  pub apply_commit : Root → CommitService → CommitService × List Effect
  unfolding apply_parsed
  apply_commit root s = elim (first_running s.queue) [
    | none ↦ (s, [])
    | some t ↦ apply_parsed s root (parse t.payload)
  ]

  -- What reaches the service: its three events and its one action.
  pub data Input : Type 0 where
    settings_commit : List ℕ → Input
    reload_complete reload_failed : Input
    apply : Root → Input

  pub step : CommitService → Input → CommitService × List Effect
  step s (settings_commit payload) = receive_settings_commit s payload
  step s reload_complete = reload_ended done s
  step s reload_failed = reload_ended failed s
  step s (apply root) = apply_commit root s
