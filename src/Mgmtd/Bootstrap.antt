-- ===== src/Mgmtd/Bootstrap.antt =====
-- mgmtd/service/bootstrap/BootstrapService.{h,cpp}, with the reload status of
-- mgmtd/service/MgmtdServiceManager.{h,cpp}. mgmtd does not wait for the fleet: it reports itself
-- ready as soon as the broker has answered, and gives up when no answer comes. Times are ticks of
-- the steady clock, which do not go back. The JSON library is a parameter, `ok_of`: the Boolean
-- field "ok" of a payload, `none` where there is none or the payload is not JSON.
pub mod Ready
pub mod Outcome
use Prim.Native.String.{String}
use nf_nms.Common.{
  ℕ, ◌+◌, ◌-◌, List, [], ◌∷◌, ◌++◌, Option, none, some, Bool, true, false, not, if◌then◌else◌, leb,
  ltb, ◌==◌, length,
}
use nf_nms.Ipc.Protocol.Daemon.{IpcDaemon, daemon_to_str}
use nf_nms.Ipc.Protocol.Cmd.{IpcCmd}
use nf_nms.Ipc.Protocol.Flag.{IpcFlag, to_flag, has_flag}
use nf_nms.Ipc.Message.{IpcMessage, build}

pub data ReloadStatus : Type 0 where
  no_reload reloading complete reload_failed : ReloadStatus

-- The part of `MgmtdServiceManager` that a reload writes.
pub record Reload : Type 0 where
  pub reload_status : ReloadStatus
  pub reload_started_at : ℕ

pub start_reload : ℕ → Reload → Reload
start_reload now r = record r { reload_status = reloading; reload_started_at = now }

pub data State : Type 0 where
  init wait_server_hello ready running failed : State

pub record BootstrapService : Type 0 where
  pub state : State
  pub started_at : ℕ
  pub last_client_hello_sent_at : ℕ

pub data BootstrapEvent : Type 0 where
  send_client_hello became_ready : BootstrapEvent
  receive_server_hello receive_runtime_start : Option IpcMessage → BootstrapEvent
  receive_settings_commit_response : Option IpcMessage → BootstrapEvent

pub data BootstrapAction : Type 0 where
  client_hello : BootstrapAction

pub data Effect : Type 0 where
  action_posted : BootstrapAction → Effect
  sent : IpcMessage → Effect
  config_cache_invalidated ai_config_pushed : Effect

pub complete_reload : Reload → Reload × List Effect
complete_reload r = (record r { reload_status = complete }, config_cache_invalidated ∷ [])

pub fail_reload : Reload → Reload × List Effect
fail_reload r = (record r { reload_status = reload_failed }, config_cache_invalidated ∷ [])

pub start : ℕ → BootstrapService
start now = record { state = init; started_at = now; last_client_hello_sent_at = 0 }

-- `schedule`, by the state, with the two intervals of the configuration. `checkTimeout` gives up.
pub schedule :
    (hello_interval timeout now : ℕ)
    → State
    → BootstrapService
    → BootstrapService × Option BootstrapEvent
schedule hello_interval timeout now init s =
    if ltb (now - s.started_at) timeout
    then (
      record s { state = wait_server_hello; last_client_hello_sent_at = now },
      some send_client_hello,
    )
    else (record s { state = failed }, none)
schedule hello_interval timeout now wait_server_hello s =
    if ltb (now - s.started_at) timeout
    then (if leb hello_interval (now - s.last_client_hello_sent_at)
        then (record s { last_client_hello_sent_at = now }, some send_client_hello)
        else (s, none))
    else (record s { state = failed }, none)
schedule hello_interval timeout now ready s = (record s { state = running }, some became_ready)
schedule hello_interval timeout now running s = (s, none)
schedule hello_interval timeout now failed s = (s, none)

module _ (name : String → List ℕ) (ok_of : List ℕ → Option Bool) where
  pub build_client_hello : IpcMessage
  build_client_hello = record {
    header = build IpcDaemon.mgmtd IpcDaemon.ipcd IpcCmd.client_hello 0 (to_flag IpcFlag.request);
    payload = name (daemon_to_str IpcDaemon.mgmtd);
  }

  pub build_runtime_ready : IpcMessage
  build_runtime_ready = record {
    header = build IpcDaemon.mgmtd IpcDaemon.ipcd IpcCmd.runtime_ready 0 (to_flag IpcFlag.request);
    payload = name (daemon_to_str IpcDaemon.mgmtd);
  }

  pub on_server_hello : State → BootstrapService → BootstrapService × List Effect
  unfolding build_runtime_ready
  on_server_hello wait_server_hello s = (record s { state = ready }, sent build_runtime_ready ∷ [])
  on_server_hello _ s = (s, [])

  -- The outcome that a response reports: the flag, unless the payload says it.
  pub outcome : IpcMessage → Bool
  outcome m =
      let flagged = not (has_flag m.header.flags IpcFlag.error) in
      if length m.payload == 0
      then flagged
      else elim (ok_of m.payload) [ none ↦ flagged | some ok ↦ ok ]

  pub on_settings_commit_response : IpcMessage → Reload → Reload × List Effect
  unfolding outcome complete_reload fail_reload
  on_settings_commit_response m r =
      let (r', out) = if outcome m then complete_reload r else fail_reload r in
      (r', out ++ (ai_config_pushed ∷ []))

  pub handle_event :
      BootstrapEvent → Reload → BootstrapService → Reload × BootstrapService × List Effect
  unfolding on_server_hello on_settings_commit_response
  handle_event send_client_hello r s = (r, s, action_posted client_hello ∷ [])
  handle_event became_ready r s = (r, s, ai_config_pushed ∷ [])
  handle_event (receive_server_hello none) r s = (r, s, [])
  handle_event (receive_server_hello (some m)) r s =
      let (s', out) = on_server_hello s.state s in (r, s', out)
  handle_event (receive_runtime_start none) r s = (r, s, [])
  handle_event (receive_runtime_start (some m)) r s = (r, s, ai_config_pushed ∷ [])
  handle_event (receive_settings_commit_response none) r s = (r, s, [])
  handle_event (receive_settings_commit_response (some m)) r s =
      let (r', out) = on_settings_commit_response m r in (r', s, out)

  -- `handleAction`, by the state.
  pub handle_action : BootstrapAction → State → List Effect
  unfolding build_client_hello
  handle_action client_hello wait_server_hello = sent build_client_hello ∷ []
  handle_action client_hello _ = []
