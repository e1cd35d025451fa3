-- ===== src/Ipcd/Bootstrap.antt =====
-- ipcd/service/bootstrap/BootstrapService.cpp, run from the queues of
-- ipcd/service/IpcdServiceManager.cpp: what the broker itself answers. The JSON library is two
-- parameters: the version that a readiness report carries, 0 where it carries none and `none` where
-- the library throws on it, and the text of a list of daemons. Nothing catches the exception: the
-- loop is left, and with it the daemon ends.
pub mod Execute
pub mod Hello
use Prim.Native.String.{String}
use nf_nms.Common.{
  ℕ, zero, suc, ◌+◌, ◌*◌, List, [], ◌∷◌, ◌++◌, Option, none, some, Bool, true, false, ◌||◌,
  if◌then◌else◌, ◌==◌, length,
}
use nf_nms.Ipc.Protocol.Daemon.{IpcDaemon, daemon_eq, daemon_to_str}
use nf_nms.Ipc.Protocol.Cmd.{IpcCmd}
use nf_nms.Ipc.Protocol.Flag.{IpcFlag, to_flag}
use nf_nms.Ipc.Message.{IpcMessage, build, set_payload, get_src}
use nf_nms.Ipc.Codec.{Endian}
use nf_nms.Ipcd.Routes.{RuntimeState, RuntimeTable, mark_runtime_ready}
use nf_nms.Ipcd.Broker.{
  Broker, BootstrapEvent, receive_client_hello, receive_sync_request, receive_runtime_ready,
  BootstrapAction, send_server_hello, send_sync_response, egress,
}

-- One daemon of a SyncResponse.
pub record Listed : Type 0 where
  pub daemon : String
  pub ready : Bool
  pub generation : ℕ
  pub applied_version : ℕ

-- The loop of `buildSyncResponse`: the connected daemons, without engined and mgmtd.
pub listed : RuntimeTable → List Listed
listed [] = []
listed ((d, s) ∷ rest) =
    if daemon_eq d IpcDaemon.engined || daemon_eq d IpcDaemon.mgmtd
    then listed rest
    else elim s.fd [
      | none ↦ listed rest
      | some _ ↦
          record {
            daemon = daemon_to_str d;
            ready = s.ready;
            generation = s.generation;
            applied_version = s.applied_version;
          }
          ∷ listed rest
    ]

-- The answer to a request, from ipcd to the sender and under its sequence number.
unfoldable pub response : IpcMessage → IpcCmd → List ℕ → IpcMessage
response req cmd payload = record {
  header = build IpcDaemon.ipcd (get_src req) cmd req.header.seq_no (to_flag IpcFlag.response);
  payload = payload;
}

-- What a turn of the loop comes to: both queues are empty, an exception, or the broker after it.
pub data Turn : Type 0 where
  idle thrown : Turn
  went : Broker → Turn

pub went_or_thrown : Option Broker → Turn
went_or_thrown none = thrown
went_or_thrown (some b) = went b

module _ (e : Endian) (name : String → List ℕ) (version : List ℕ → Option ℕ)
    (dump : List Listed → List ℕ) where
  unfoldable pub build_server_hello : IpcMessage → IpcMessage
  build_server_hello req = response req IpcCmd.server_hello (name (daemon_to_str IpcDaemon.ipcd))

  pub build_sync_response : RuntimeTable → IpcMessage → IpcMessage
  build_sync_response table req = response req IpcCmd.sync_response (dump (listed table))

  -- The version of a report; one without a payload carries none.
  pub reported : List ℕ → Option ℕ
  reported [] = some 0
  reported (x ∷ payload) = version (x ∷ payload)

  pub ready_at : Broker → IpcMessage → Option ℕ → Option Broker
  ready_at b m none = none
  ready_at b m (some applied) =
      some (record b { table = mark_runtime_ready b.table (get_src m) true applied })

  -- `handleEvent`, none where an exception leaves it.
  pub handle_event : Broker → BootstrapEvent → Option Broker
  unfolding reported ready_at
  handle_event b (receive_client_hello m) =
      some (record b { actions = b.actions ++ (send_server_hello m ∷ []) })
  handle_event b (receive_sync_request m) =
      some (record b { actions = b.actions ++ (send_sync_response m ∷ []) })
  handle_event b (receive_runtime_ready m) = ready_at b m (reported m.payload)

  -- `handleAction`
  pub handle_action : Broker → BootstrapAction → Broker
  handle_action b (send_server_hello m) = egress e b (build_server_hello m)
  handle_action b (send_sync_response m) = egress e b (build_sync_response b.table m)

  -- One turn of the loop of `execute`, by the queues.
  pub turn : Broker → List BootstrapEvent → List BootstrapAction → Turn
  unfolding went_or_thrown
  turn b (event ∷ later) actions = went_or_thrown (handle_event (record b { events = later }) event)
  turn b [] (action ∷ later) = went (handle_action (record b { actions = later }) action)
  turn b [] [] = idle

  -- `execute`, on fuel; none where an exception leaves it.
  pub run : ℕ → Broker → Option Broker
  run zero b = some b
  run (suc fuel) b = elim (turn b b.events b.actions) [
    | idle ↦ some b
    | thrown ↦ none
    | went b' ↦ run fuel b'
  ]

  -- An event leaves one action at most, and an action leaves nothing to do.
  pub execute : Broker → Option Broker
  execute b = run (suc (2 * length b.events + length b.actions)) b
