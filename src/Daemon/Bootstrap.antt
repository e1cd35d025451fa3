-- ===== src/Daemon/Bootstrap.antt =====
-- authd/service/bootstrap/BootstrapService.{h,cpp}: how a service daemon joins the fabric and waits
-- to be started. collectord, topologyd and probed have copies of this file that differ in the
-- daemon's name and in log lines; `self` is the daemon. Times are ticks of the steady clock, which
-- do not go back. What is sent or posted is a list of effects, in order.
pub mod Gate
pub mod Handshake
use Prim.Native.String.{String}
use nf_nms.Common.{
  ℕ, ◌-◌, List, [], ◌∷◌, Option, none, some, Bool, true, false, ◌&&◌, not, if◌then◌else◌, leb,
}
use nf_nms.Ipc.Protocol.Daemon.{IpcDaemon, daemon_to_str}
use nf_nms.Ipc.Protocol.Cmd.{IpcCmd}
use nf_nms.Ipc.Protocol.Flag.{IpcFlag, to_flag}
use nf_nms.Ipc.Message.{IpcMessage, build}

pub data State : Type 0 where
  init wait_server_hello wait_runtime_start ready running failed : State

pub record BootstrapService : Type 0 where
  pub state : State
  pub started_at : ℕ
  pub last_client_hello_sent_at : ℕ
  pub last_runtime_ready_sent_at : ℕ
  pub boot_slow_warned : Bool

pub data BootstrapEvent : Type 0 where
  send_client_hello send_runtime_ready : BootstrapEvent
  receive_server_hello receive_runtime_start : Option IpcMessage → BootstrapEvent

pub data BootstrapAction : Type 0 where
  client_hello runtime_ready : BootstrapAction

pub data Effect : Type 0 where
  action_posted : BootstrapAction → Effect
  sent : IpcMessage → Effect

pub start : ℕ → BootstrapService
start now = record {
  state = init;
  started_at = now;
  last_client_hello_sent_at = 0;
  last_runtime_ready_sent_at = 0;
  boot_slow_warned = false;
}

-- `bootstrapConfig`: the intervals in ticks.
pub record Timing : Type 0 where
  pub client_hello_interval : ℕ
  pub runtime_ready_interval : ℕ
  pub bootstrap_timeout : ℕ

-- `checkTimeout`, which answers false whatever it finds.
pub check_timeout : Timing → ℕ → BootstrapService → BootstrapService
check_timeout t now s =
    if leb t.bootstrap_timeout (now - s.started_at) && not s.boot_slow_warned
    then record s { boot_slow_warned = true }
    else s

pub retry_hello : Timing → ℕ → BootstrapService → BootstrapService × Option BootstrapEvent
retry_hello t now s =
    if leb t.client_hello_interval (now - s.last_client_hello_sent_at)
    then (record s { last_client_hello_sent_at = now }, some send_client_hello)
    else (s, none)

pub retry_ready : Timing → ℕ → BootstrapService → BootstrapService × Option BootstrapEvent
retry_ready t now s =
    if leb t.runtime_ready_interval (now - s.last_runtime_ready_sent_at)
    then (record s { last_runtime_ready_sent_at = now }, some send_runtime_ready)
    else (s, none)

-- `schedule`, by the state.
pub schedule : Timing → ℕ → State → BootstrapService → BootstrapService × Option BootstrapEvent
unfolding check_timeout retry_hello retry_ready
schedule t now init s = (
  record (check_timeout t now s) { state = wait_server_hello; last_client_hello_sent_at = now },
  some send_client_hello,
)
schedule t now wait_server_hello s = retry_hello t now (check_timeout t now s)
schedule t now wait_runtime_start s = retry_ready t now (check_timeout t now s)
schedule t now ready s = (record s { state = running }, none)
schedule t now running s = (s, none)
schedule t now failed s = (s, none)

pub is_ready : BootstrapService → Bool
is_ready s = elim s.state [ running ↦ true | _ ↦ false ]

pub on_server_hello : ℕ → State → BootstrapService → BootstrapService × List Effect
on_server_hello now wait_server_hello s = (
  record s { state = wait_runtime_start; last_runtime_ready_sent_at = now },
  action_posted runtime_ready ∷ [],
)
on_server_hello now _ s = (s, [])

pub on_runtime_start : State → BootstrapService → BootstrapService × List Effect
on_runtime_start wait_runtime_start s = (record s { state = ready }, [])
on_runtime_start _ s = (s, [])

pub handle_event : ℕ → BootstrapEvent → BootstrapService → BootstrapService × List Effect
unfolding on_server_hello on_runtime_start
handle_event now send_client_hello s = (s, action_posted client_hello ∷ [])
handle_event now (receive_server_hello none) s = (s, [])
handle_event now (receive_server_hello (some m)) s = on_server_hello now s.state s
handle_event now send_runtime_ready s = (s, action_posted runtime_ready ∷ [])
handle_event now (receive_runtime_start none) s = (s, [])
handle_event now (receive_runtime_start (some m)) s = on_runtime_start s.state s

-- The bytes of a daemon's name, and the JSON text of a readiness report.
module _ (name : String → List ℕ) (ready_text : String → ℕ → List ℕ) where
  unfoldable pub build_client_hello : IpcDaemon → IpcMessage
  build_client_hello self = record {
    header = build self IpcDaemon.ipcd IpcCmd.client_hello 0 (to_flag IpcFlag.request);
    payload = name (daemon_to_str self);
  }

  pub build_runtime_ready : IpcDaemon → ℕ → IpcMessage
  build_runtime_ready self version = record {
    header = build self IpcDaemon.ipcd IpcCmd.runtime_ready 0 (to_flag IpcFlag.request);
    payload = ready_text (daemon_to_str self) version;
  }

  -- `handleAction`, by the state, when `version` is the running configuration's.
  pub handle_action : IpcDaemon → ℕ → BootstrapAction → State → List Effect
  handle_action self version client_hello wait_server_hello = sent (build_client_hello self) ∷ []
  handle_action self version runtime_ready wait_runtime_start =
      sent (build_runtime_ready self version) ∷ []
  handle_action self version _ _ = []
