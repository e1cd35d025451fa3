-- ===== src/Engined/Bootstrap.antt =====
-- engined/service/bootstrap/BootstrapService.{h,cpp}: engined waits until every service daemon runs
-- the target version, and then starts the system or ends a reload. Times are ticks of the steady
-- clock, which do not go back. `warnIfBootSlow` and `dumpProcessMap` only log, and the two times
-- they read are left out. What is sent or posted is a list of effects, in order.
pub mod Converge
use Prim.Native.String.{String}
use nf_nms.Common.{
  ℕ, ◌-◌, List, [], ◌∷◌, Option, none, some, Bool, true, false, ◌||◌, ◌&&◌, not, if◌then◌else◌, ltb,
  leb, length, ◌==◌,
}
use nf_nms.Ipc.Protocol.Daemon.{IpcDaemon, daemon_eq, daemon_to_str, str_to_daemon}
use nf_nms.Ipc.Protocol.Cmd.{IpcCmd}
use nf_nms.Ipc.Protocol.Flag.{IpcFlag, to_flag, or_flag}
use nf_nms.Ipc.Message.{IpcMessage, build}

pub data State : Type 0 where
  init wait_handshake reconcile : State

pub record ProcessState : Type 0 where
  pub connected : Bool
  pub applied_version : ℕ
  pub generation : ℕ
  pub blessed_generation : ℕ

abbrev pub ProcessMap : Type 0
ProcessMap = List (IpcDaemon × ProcessState)

pub record BootstrapService : Type 0 where
  pub state : State
  pub last_client_hello_sent_at : ℕ
  pub last_sync_request_sent_at : ℕ
  pub target_version : ℕ
  pub process_map : ProcessMap
  pub is_reload : Bool
  pub bootstrapped : Bool
  pub reload_started_at : ℕ

pub data BootstrapEvent : Type 0 where
  send_client_hello send_sync_request send_runtime_start receive_runtime_start : BootstrapEvent
  reload_failed : BootstrapEvent
  receive_server_hello receive_sync_response : Option IpcMessage → BootstrapEvent

pub data BootstrapAction : Type 0 where
  client_hello sync_request runtime_start send_reload_failed : BootstrapAction

pub data Effect : Type 0 where
  action_posted : BootstrapAction → Effect
  sent : IpcMessage → Effect
  reload_complete_posted reload_failed_posted : Effect

abbrev pub unseen : ProcessState
unseen = record { connected = false; applied_version = 0; generation = 0; blessed_generation = 0 }

-- `start` with `initProcessMap`, for the version of the running configuration.
pub start : ℕ → BootstrapService
start version = record {
  state = init;
  last_client_hello_sent_at = 0;
  last_sync_request_sent_at = 0;
  target_version = version;
  process_map =
      (IpcDaemon.authd, unseen)
      ∷ (IpcDaemon.probed, unseen)
      ∷ (IpcDaemon.collectord, unseen)
      ∷ (IpcDaemon.topologyd, unseen)
      ∷ (IpcDaemon.apid, unseen)
      ∷ [];
  is_reload = false;
  bootstrapped = false;
  reload_started_at = 0;
}

pub schedule_service_reload : (version now : ℕ) → BootstrapService → BootstrapService
schedule_service_reload version now s = record s {
  target_version = version;
  is_reload = true;
  reload_started_at = now;
}

-- `schedule` in the state Reconcile.
pub poll_sync :
    (sync_interval now : ℕ) → BootstrapService → BootstrapService × Option BootstrapEvent
poll_sync sync_interval now s =
    if leb sync_interval (now - s.last_sync_request_sent_at)
    then (record s { last_sync_request_sent_at = now }, some send_sync_request)
    else (s, none)

pub poll :
    (hello_interval sync_interval reload_timeout now : ℕ)
    → State
    → BootstrapService
    → BootstrapService × Option BootstrapEvent
poll hello_interval sync_interval reload_timeout now init s =
    (record s { state = wait_handshake; last_client_hello_sent_at = now }, some send_client_hello)
poll hello_interval sync_interval reload_timeout now wait_handshake s =
    if leb hello_interval (now - s.last_client_hello_sent_at)
    then (record s { last_client_hello_sent_at = now }, some send_client_hello)
    else (s, none)
poll hello_interval sync_interval reload_timeout now reconcile s =
    if s.is_reload && leb reload_timeout (now - s.reload_started_at)
    then (record s { is_reload = false }, some reload_failed)
    else poll_sync sync_interval now s

-- One item of the array `daemons`, as the JSON library reads it: without a name, with a field of
-- another type, on which the library throws, or with a name, a version and a generation.
pub data Item : Type 0 where
  nameless malformed : Item
  item : String → ℕ → ℕ → Item

-- The entry of a daemon that is reported, written through the iterator.
pub report : ProcessMap → IpcDaemon → ℕ → ℕ → ProcessMap
report [] daemon version generation = []
report ((k, ps) ∷ rest) daemon version generation =
    if daemon_eq k daemon
    then (k, record ps { connected = true; applied_version = version; generation = generation })
      ∷ rest
    else (k, ps) ∷ report rest daemon version generation

-- `reported.find(daemon) != reported.end()`
pub is_reported : List IpcDaemon → IpcDaemon → Bool
is_reported [] daemon = false
is_reported (d ∷ ds) daemon = daemon_eq d daemon || is_reported ds daemon

pub drop_unreported : List IpcDaemon → ProcessMap → ProcessMap
drop_unreported reported [] = []
drop_unreported reported ((k, ps) ∷ rest) =
    (k, if is_reported reported k then ps else record ps { connected = false; applied_version = 0 })
    ∷ drop_unreported reported rest

-- The loop over the items and what follows it; an item on which the library throws ends it, with
-- the entries written so far.
pub read_items : List Item → List IpcDaemon → ProcessMap → Bool × ProcessMap
read_items [] reported m = (true, drop_unreported reported m)
read_items (nameless ∷ items) reported m = read_items items reported m
read_items (malformed ∷ items) reported m = (false, m)
read_items (item name version generation ∷ items) reported m =
    read_items items (str_to_daemon name ∷ reported)
      (report m (str_to_daemon name) version generation)

-- `connected && appliedVersion >= target`
abbrev pub is_ready : ℕ → ProcessState → Bool
is_ready target ps = ps.connected && leb target ps.applied_version

-- The loop of `isAllProcessReady`.
pub all_ready : ℕ → ProcessMap → Bool
all_ready target [] = true
all_ready target ((k, ps) ∷ rest) = is_ready target ps && all_ready target rest

pub is_all_process_ready : ℕ → ProcessMap → Bool
is_all_process_ready target [] = false
is_all_process_ready target (p ∷ rest) = all_ready target (p ∷ rest)

pub any_unblessed : ProcessMap → Bool
any_unblessed [] = false
any_unblessed ((k, ps) ∷ rest) = ltb ps.blessed_generation ps.generation || any_unblessed rest

-- The loop of SendRuntimeStart.
pub bless : ℕ → ProcessMap → ProcessMap
bless target [] = []
bless target ((k, ps) ∷ rest) =
    (k, if is_ready target ps then record ps { blessed_generation = ps.generation } else ps)
    ∷ bless target rest

-- `parse` is the JSON library's: the items of `daemons`, or `none` without such an array.
module _ (parse : List ℕ → Option (List Item)) where
  pub update_process_map : ProcessMap → List ℕ → Bool × ProcessMap
  update_process_map m payload =
      if length payload == 0
      then (false, m)
      else elim (parse payload) [ none ↦ (false, m) | some items ↦ read_items items [] m ]

  -- What `onSyncResponse` does once the map has been read.
  pub judged : BootstrapService → Bool × ProcessMap → BootstrapService × List Effect
  judged s (read, m) =
      if read && (is_all_process_ready s.target_version m && any_unblessed m)
      then (record s { process_map = m }, action_posted runtime_start ∷ [])
      else (record s { process_map = m }, [])

  pub on_sync_response : State → BootstrapService → IpcMessage → BootstrapService × List Effect
  on_sync_response reconcile s m = judged s (update_process_map s.process_map m.payload)
  on_sync_response init s m = (s, [])
  on_sync_response wait_handshake s m = (s, [])

  pub on_server_hello : ℕ → State → BootstrapService → BootstrapService × List Effect
  on_server_hello now wait_handshake s = (
    record s { state = reconcile; last_sync_request_sent_at = now },
    action_posted sync_request ∷ [],
  )
  on_server_hello now init s = (s, [])
  on_server_hello now reconcile s = (s, [])

  pub handle_event : ℕ → BootstrapEvent → BootstrapService → BootstrapService × List Effect
  handle_event now send_client_hello s = (s, action_posted client_hello ∷ [])
  handle_event now (receive_server_hello none) s = (s, [])
  handle_event now (receive_server_hello (some m)) s = on_server_hello now s.state s
  handle_event now send_sync_request s = (s, action_posted sync_request ∷ [])
  handle_event now (receive_sync_response none) s = (s, [])
  handle_event now (receive_sync_response (some m)) s = on_sync_response s.state s m
  handle_event now send_runtime_start s = (s, action_posted runtime_start ∷ [])
  handle_event now receive_runtime_start s = (s, [])
  handle_event now reload_failed s = (s, action_posted send_reload_failed ∷ [])

-- The texts that the messages carry: a daemon's name, and JSON with the target version.
module _ (name : String → List ℕ) (start_text : ℕ → List ℕ)
    (response_text : Bool → ℕ → List ℕ) where
  -- `buildClientHelloMessage` and `buildSyncRequestMessage`, which differ in the command.
  pub request : IpcCmd → IpcMessage
  request cmd = record {
    header = build IpcDaemon.engined IpcDaemon.ipcd cmd 0 (to_flag IpcFlag.request);
    payload = name (daemon_to_str IpcDaemon.engined);
  }

  pub build_runtime_start : ℕ → IpcMessage
  build_runtime_start version = record {
    header =
        build IpcDaemon.engined IpcDaemon.broadcast IpcCmd.runtime_start 0
          (or_flag IpcFlag.request IpcFlag.broadcast);
    payload = start_text version;
  }

  unfoldable pub build_settings_commit_response : Bool → ℕ → IpcMessage
  build_settings_commit_response ok version = record {
    header =
        build IpcDaemon.engined IpcDaemon.mgmtd IpcCmd.settings_commit_response 0
          (if ok then to_flag IpcFlag.response else or_flag IpcFlag.response IpcFlag.error);
    payload = response_text ok version;
  }

  -- The end of SendRuntimeStart.
  pub started : BootstrapService → BootstrapService × List Effect
  started s =
      if s.is_reload
      then (
        record s { is_reload = false },
        sent (build_runtime_start s.target_version)
            ∷ sent (build_settings_commit_response true s.target_version)
            ∷ reload_complete_posted
            ∷ [],
      )
      else (s, sent (build_runtime_start s.target_version) ∷ [])

  pub handle_action : BootstrapAction → State → BootstrapService → BootstrapService × List Effect
  handle_action client_hello wait_handshake s = (s, sent (request IpcCmd.client_hello) ∷ [])
  handle_action client_hello init s = (s, [])
  handle_action client_hello reconcile s = (s, [])
  handle_action sync_request reconcile s = (s, sent (request IpcCmd.sync_request) ∷ [])
  handle_action sync_request init s = (s, [])
  handle_action sync_request wait_handshake s = (s, [])
  handle_action runtime_start state s =
      started (record s { process_map = bless s.target_version s.process_map; bootstrapped = true })
  handle_action send_reload_failed state s =
      (s, sent (build_settings_commit_response false s.target_version) ∷ reload_failed_posted ∷ [])
