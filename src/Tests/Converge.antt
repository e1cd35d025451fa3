-- ===== src/Tests/Converge.antt =====
-- engined with one service daemon, which has come to the target version 4 in its third generation.
use Prim.Native.String.{String}
use nf_nms.Common.{
  ℕ, List, [], ◌∷◌, ◌≡◌, ◌≢◌, ◌⊎◌, refl, arith, Option, some, Bool, true, false, length,
}
use nf_nms.Ipc.Protocol.Daemon.{IpcDaemon}
use nf_nms.Ipc.Protocol.Cmd.{IpcCmd}
use nf_nms.Ipc.Message.{IpcMessage}
use nf_nms.Engined.Bootstrap.{
  reconcile, BootstrapService, runtime_start, Item, item, sent, action_posted, on_sync_response,
  handle_action, any_unblessed, build_settings_commit_response, build_runtime_start,
  reload_complete_posted,
}
use nf_nms.Engined.Bootstrap.Converge.{Converged, on_sync_response-Converged, runtime_start_blesses}

abbrev arrived : BootstrapService
arrived = record {
  state = reconcile;
  last_client_hello_sent_at = 1;
  last_sync_request_sent_at = 5;
  target_version = 4;
  process_map =
      (
        IpcDaemon.authd,
        record { connected = true; applied_version = 4; generation = 3; blessed_generation = 2 },
      )
      ∷ [];
  is_reload = true;
  bootstrapped = true;
  reload_started_at = 3;
}

abbrev parse : List ℕ → Option (List Item)
parse bytes = some (item "authd" (length bytes) 3 ∷ [])

abbrev name : String → List ℕ
name s = 101 ∷ []

abbrev start_text : ℕ → List ℕ
start_text version = version ∷ []

abbrev response_text : Bool → ℕ → List ℕ
response_text ok version = version ∷ []

abbrev synced : IpcMessage
synced = record {
  header = record {
    version = 2;
    src = IpcDaemon.ipcd;
    dst = IpcDaemon.engined;
    flags = 2;
    cmd = IpcCmd.sync_response;
    seq_no = 0;
  };
  payload = 1 ∷ 2 ∷ 3 ∷ 4 ∷ [];
}

on_sync_response-Converged_example :
    let (s, effects) = on_sync_response parse reconcile arrived synced in
    (effects ≡ [])
    ⊎ ((effects ≡ action_posted runtime_start ∷ [])
        × (s.process_map ≢ [])
        × Converged s.target_version s.process_map
        × (any_unblessed s.process_map ≡ true))
on_sync_response-Converged_example = on_sync_response-Converged parse reconcile arrived synced

runtime_start_blesses_example :
    let (s, effects) =
      handle_action name start_text response_text runtime_start reconcile arrived in
    (any_unblessed s.process_map ≡ false)
    × (s.bootstrapped ≡ true)
    × (s.is_reload ≡ false)
    × (((arrived.is_reload ≡ true)
          × (effects
              ≡ sent (build_runtime_start name start_text response_text arrived.target_version)
                ∷ sent (
                    build_settings_commit_response name start_text response_text true
                      arrived.target_version)
                ∷ reload_complete_posted
                ∷ []))
        ⊎ ((arrived.is_reload ≡ false)
            × (effects
                ≡ sent (build_runtime_start name start_text response_text arrived.target_version)
                  ∷ [])))
runtime_start_blesses_example =
    runtime_start_blesses name start_text response_text reconcile arrived (refl, omega arith, tt)
