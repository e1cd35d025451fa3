-- ===== src/Ipc/Protocol/Cmd.antt =====
-- shared/ipc/IpcProtocol.{h,cpp}: the commands of the fabric, `IpcCmd`, with their wire values,
-- names and categories. `unnamed n` is a value of the enum class that has no enumerator.
use Prim.Native.String.{String}
use nf_nms.Common.{ℕ, List, [], ◌∷◌, ◌≡◌, refl, arith, Bool, ◌==◌}
use nf_nms.Ipc.Protocol.Enum.{of_table, Filed, code-of_table}

pub data IpcCmd : Type 0 where
  unknown client_hello server_hello sync_request sync_response runtime_ready runtime_start : IpcCmd
  error heartbeat_request heartbeat_response heartbeat_result config_apply : IpcCmd
  settings_commit_request settings_commit_response settings_commit_status local_user_update : IpcCmd
  chat_turn_store probe_request probe_result scan_request scan_result auth_login_request : IpcCmd
  auth_login_response auth_oidc_start_request auth_oidc_start_response : IpcCmd
  auth_oidc_callback_request auth_oidc_callback_response auth_saml_start_request : IpcCmd
  auth_saml_start_response auth_saml_acs_request auth_saml_acs_response : IpcCmd
  api_credential_state_update api_keygen_request api_connector_test_response : IpcCmd
  api_endpoint_test_request api_sase_test_request api_tls_probe_request : IpcCmd
  api_sase_key_store_request api_credential_store_request api_credential_state_request : IpcCmd
  api_credential_state_response api_collection_sample sase_api_key_update sase_health_result :
      IpcCmd
  topology_request topology_response ai_credential_state_update : IpcCmd
  unnamed : ℕ → IpcCmd

-- `static_cast<std::uint16_t>(cmd)`
unfoldable pub cmd_code : IpcCmd → ℕ
cmd_code unknown = 0
cmd_code client_hello = 1
cmd_code server_hello = 2
cmd_code sync_request = 3
cmd_code sync_response = 4
cmd_code runtime_ready = 5
cmd_code runtime_start = 6
cmd_code error = 102
cmd_code heartbeat_request = 104
cmd_code heartbeat_response = 105
cmd_code heartbeat_result = 106
cmd_code config_apply = 107
cmd_code settings_commit_request = 110
cmd_code settings_commit_response = 109
cmd_code settings_commit_status = 111
cmd_code local_user_update = 114
cmd_code chat_turn_store = 141
cmd_code probe_request = 115
cmd_code probe_result = 103
cmd_code scan_request = 112
cmd_code scan_result = 113
cmd_code auth_login_request = 116
cmd_code auth_login_response = 117
cmd_code auth_oidc_start_request = 118
cmd_code auth_oidc_start_response = 119
cmd_code auth_oidc_callback_request = 120
cmd_code auth_oidc_callback_response = 121
cmd_code auth_saml_start_request = 122
cmd_code auth_saml_start_response = 123
cmd_code auth_saml_acs_request = 124
cmd_code auth_saml_acs_response = 125
cmd_code api_credential_state_update = 126
cmd_code api_keygen_request = 127
cmd_code api_connector_test_response = 128
cmd_code api_endpoint_test_request = 134
cmd_code api_sase_test_request = 135
cmd_code api_tls_probe_request = 136
cmd_code api_sase_key_store_request = 137
cmd_code api_credential_store_request = 138
cmd_code api_credential_state_request = 129
cmd_code api_credential_state_response = 130
cmd_code api_collection_sample = 131
cmd_code sase_api_key_update = 132
cmd_code sase_health_result = 133
cmd_code topology_request = 139
cmd_code topology_response = 140
cmd_code ai_credential_state_update = 147
cmd_code (unnamed n) = n

abbrev pub cmd_table : List (ℕ × IpcCmd)
cmd_table =
    (0, unknown)
    ∷ (1, client_hello)
    ∷ (2, server_hello)
    ∷ (3, sync_request)
    ∷ (4, sync_response)
    ∷ (5, runtime_ready)
    ∷ (6, runtime_start)
    ∷ (102, error)
    ∷ (104, heartbeat_request)
    ∷ (105, heartbeat_response)
    ∷ (106, heartbeat_result)
    ∷ (107, config_apply)
    ∷ (110, settings_commit_request)
    ∷ (109, settings_commit_response)
    ∷ (111, settings_commit_status)
    ∷ (114, local_user_update)
    ∷ (141, chat_turn_store)
    ∷ (115, probe_request)
    ∷ (103, probe_result)
    ∷ (112, scan_request)
    ∷ (113, scan_result)
    ∷ (116, auth_login_request)
    ∷ (117, auth_login_response)
    ∷ (118, auth_oidc_start_request)
    ∷ (119, auth_oidc_start_response)
    ∷ (120, auth_oidc_callback_request)
    ∷ (121, auth_oidc_callback_response)
    ∷ (122, auth_saml_start_request)
    ∷ (123, auth_saml_start_response)
    ∷ (124, auth_saml_acs_request)
    ∷ (125, auth_saml_acs_response)
    ∷ (126, api_credential_state_update)
    ∷ (127, api_keygen_request)
    ∷ (128, api_connector_test_response)
    ∷ (134, api_endpoint_test_request)
    ∷ (135, api_sase_test_request)
    ∷ (136, api_tls_probe_request)
    ∷ (137, api_sase_key_store_request)
    ∷ (138, api_credential_store_request)
    ∷ (129, api_credential_state_request)
    ∷ (130, api_credential_state_response)
    ∷ (131, api_collection_sample)
    ∷ (132, sase_api_key_update)
    ∷ (133, sase_health_result)
    ∷ (139, topology_request)
    ∷ (140, topology_response)
    ∷ (147, ai_credential_state_update)
    ∷ []

-- `static_cast<IpcCmd>(word)`
unfoldable pub cmd_of_code : ℕ → IpcCmd
cmd_of_code n = of_table cmd_code unnamed cmd_table n

abbrev pub cmd_eq : IpcCmd → IpcCmd → Bool
cmd_eq a b = cmd_code a == cmd_code b

unfoldable pub cmd_to_str : IpcCmd → String
cmd_to_str client_hello = "ClientHello"
cmd_to_str server_hello = "ServerHello"
cmd_to_str sync_request = "SyncRequest"
cmd_to_str sync_response = "SyncResponse"
cmd_to_str runtime_ready = "RuntimeReady"
cmd_to_str runtime_start = "RuntimeStart"
cmd_to_str error = "Error"
cmd_to_str probe_result = "ProbeResult"
cmd_to_str heartbeat_request = "HeartbeatRequest"
cmd_to_str heartbeat_response = "HeartbeatResponse"
cmd_to_str heartbeat_result = "HeartbeatResult"
cmd_to_str config_apply = "ConfigApply"
cmd_to_str settings_commit_request = "SettingsCommitRequest"
cmd_to_str settings_commit_response = "SettingsCommitResponse"
cmd_to_str settings_commit_status = "SettingsCommitStatus"
cmd_to_str chat_turn_store = "ChatTurnStore"
cmd_to_str scan_request = "ScanRequest"
cmd_to_str scan_result = "ScanResult"
cmd_to_str local_user_update = "LocalUserUpdate"
cmd_to_str api_credential_state_update = "ApiCredentialStateUpdate"
cmd_to_str api_keygen_request = "ApiKeygenRequest"
cmd_to_str api_endpoint_test_request = "ApiEndpointTestRequest"
cmd_to_str api_sase_test_request = "ApiSaseTestRequest"
cmd_to_str api_tls_probe_request = "ApiTlsProbeRequest"
cmd_to_str api_sase_key_store_request = "ApiSaseKeyStoreRequest"
cmd_to_str api_credential_store_request = "ApiCredentialStoreRequest"
cmd_to_str ai_credential_state_update = "AiCredentialStateUpdate"
cmd_to_str api_connector_test_response = "ApiConnectorTestResponse"
cmd_to_str api_credential_state_request = "ApiCredentialStateRequest"
cmd_to_str api_credential_state_response = "ApiCredentialStateResponse"
cmd_to_str api_collection_sample = "ApiCollectionSample"
cmd_to_str sase_api_key_update = "SaseApiKeyUpdate"
cmd_to_str sase_health_result = "SaseHealthResult"
cmd_to_str topology_request = "TopologyRequest"
cmd_to_str topology_response = "TopologyResponse"
cmd_to_str probe_request = "ProbeRequest"
cmd_to_str auth_login_request = "AuthLoginRequest"
cmd_to_str auth_login_response = "AuthLoginResponse"
cmd_to_str auth_oidc_start_request = "AuthOidcStartRequest"
cmd_to_str auth_oidc_start_response = "AuthOidcStartResponse"
cmd_to_str auth_oidc_callback_request = "AuthOidcCallbackRequest"
cmd_to_str auth_oidc_callback_response = "AuthOidcCallbackResponse"
cmd_to_str auth_saml_start_request = "AuthSamlStartRequest"
cmd_to_str auth_saml_start_response = "AuthSamlStartResponse"
cmd_to_str auth_saml_acs_request = "AuthSamlAcsRequest"
cmd_to_str auth_saml_acs_response = "AuthSamlAcsResponse"
cmd_to_str _ = "Unknown"

-- A cast from the wire value and back changes nothing, for every word.
pub cmd_code-of_code : (n : ℕ) → cmd_code (cmd_of_code n) ≡ n
unfolding cmd_code cmd_of_code
cmd_code-of_code n = code-of_table cmd_code unnamed (λ k. refl) cmd_table n filed
  where
    filed : Filed cmd_code unnamed cmd_table
    filed = omega arith
