-- ===== src/Ipc/Protocol/Category.antt =====
-- shared/ipc/IpcProtocol.cpp: the category of a command and the routing rule drawn from it.
use nf_nms.Common.{Bool, true}
use nf_nms.Ipc.Protocol.Daemon.{IpcDaemon, daemon_eq}
use nf_nms.Ipc.Protocol.Cmd.{IpcCmd}

pub data CmdCategory : Type 0 where
  lifecycle config auth device_op write read : CmdCategory

unfoldable pub classify : IpcCmd → CmdCategory
classify IpcCmd.config_apply = config
classify IpcCmd.auth_login_request = auth
classify IpcCmd.auth_login_response = auth
classify IpcCmd.auth_oidc_start_request = auth
classify IpcCmd.auth_oidc_start_response = auth
classify IpcCmd.auth_oidc_callback_request = auth
classify IpcCmd.auth_oidc_callback_response = auth
classify IpcCmd.auth_saml_start_request = auth
classify IpcCmd.auth_saml_start_response = auth
classify IpcCmd.auth_saml_acs_request = auth
classify IpcCmd.auth_saml_acs_response = auth
classify IpcCmd.probe_request = device_op
classify IpcCmd.scan_request = device_op
classify IpcCmd.api_keygen_request = device_op
classify IpcCmd.api_endpoint_test_request = device_op
classify IpcCmd.api_sase_test_request = device_op
classify IpcCmd.api_tls_probe_request = device_op
classify IpcCmd.api_sase_key_store_request = device_op
classify IpcCmd.api_credential_store_request = device_op
classify IpcCmd.api_connector_test_response = device_op
classify IpcCmd.settings_commit_request = write
classify IpcCmd.chat_turn_store = write
classify IpcCmd.local_user_update = write
classify IpcCmd.probe_result = write
classify IpcCmd.scan_result = write
classify IpcCmd.api_credential_state_update = write
classify IpcCmd.ai_credential_state_update = write
classify IpcCmd.api_collection_sample = write
classify IpcCmd.sase_api_key_update = write
classify IpcCmd.sase_health_result = write
classify IpcCmd.api_credential_state_request = read
classify IpcCmd.api_credential_state_response = read
classify IpcCmd.topology_request = read
classify IpcCmd.topology_response = read
classify _ = lifecycle

-- The source is not looked at.
pub is_routing_allowed : IpcDaemon → IpcDaemon → IpcCmd → Bool
is_routing_allowed src dst cmd = elim (classify cmd) [
  | write ↦ daemon_eq dst IpcDaemon.engined
  | _ ↦ true
]
