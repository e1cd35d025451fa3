-- ===== src/Mgmtd/Web/Routes.antt =====
-- mgmtd/service/web/WebService.h and the route table of WebService.cpp: every URL that the web
-- interface answers, in the order in which the rows are tried.
use Prim.Native.String.{String}
use nf_nms.Common.{List, [], ◌∷◌, Bool, true, false}

pub data WebRoute : Type 0 where
  no_route metric health login logout : WebRoute
  change_password whoami session_keepalive sso_info sso_login : WebRoute
  saml_acs saml_result settings running_config settings_commit : WebRoute
  reload_status commit_queue save_config saved_configs saved_config_content : WebRoute
  device_status site_topology keygen_test endpoint_test sase_test : WebRoute
  sase_key_store credential_store tls_probe api_test_result keys_state : WebRoute
  collection_overview collection_samples collection_sample ai_credentials ai_credential_store :
      WebRoute
  chat_sessions chat_session chat_session_delete chat_session_patch user_credentials : WebRoute
  user_credential_store chat_send chat_result chat_models tech_doc_status : WebRoute
  tech_doc_result tech_doc_refresh tech_doc_progress tech_doc_cancel tech_doc_documents : WebRoute
  benchtest_datasets benchtest_upload benchtest_delete benchtest_summary benchtest_rows : WebRoute
  benchtest_export benchtest_result benchtest_run_start benchtest_run_progress
        benchtest_run_cancel :
      WebRoute
  benchtest_runs benchtest_run_info benchtest_cases benchtest_case logs : WebRoute

pub data Access : Type 0 where
  public authenticated : Access

pub data Match : Type 0 where
  exact prefix : Match

pub record Row : Type 0 where
  pub method : String
  pub path : String
  pub match : Match
  pub route : WebRoute
  pub access : Access
  pub must_change_exempt : Bool

abbrev row : String → String → Match → WebRoute → Access → Bool → Row
row method path match route access exempt = record {
  method = method;
  path = path;
  match = match;
  route = route;
  access = access;
  must_change_exempt = exempt;
}

unfoldable pub routes : List Row
routes =
    row "GET" "/metrics" exact metric public false
    ∷ row "GET" "/health" exact health public false
    ∷ row "POST" "/api/login" exact login public false
    ∷ row "POST" "/api/logout" exact logout public false
    ∷ row "POST" "/api/change-password" exact change_password authenticated true
    ∷ row "GET" "/api/whoami" exact whoami authenticated false
    ∷ row "POST" "/api/session/keepalive" exact session_keepalive authenticated false
    ∷ row "GET" "/api/auth/sso/info" exact sso_info public false
    ∷ row "GET" "/api/auth/sso/login" exact sso_login public false
    ∷ row "POST" "/api/auth/saml/acs" exact saml_acs public false
    ∷ row "GET" "/api/auth/saml/result" prefix saml_result public false
    ∷ row "GET" "/api/settings" exact settings authenticated false
    ∷ row "GET" "/api/settings/running-config" exact running_config authenticated false
    ∷ row "POST" "/api/settings/commit" exact settings_commit authenticated false
    ∷ row "GET" "/api/settings/reload-status" exact reload_status authenticated false
    ∷ row "GET" "/api/settings/commit-queue" exact commit_queue authenticated false
    ∷ row "POST" "/api/settings/save-config" exact save_config authenticated false
    ∷ row "GET" "/api/settings/saved-configs" exact saved_configs authenticated false
    ∷ row "GET" "/api/settings/saved-config-content" prefix saved_config_content authenticated false
    ∷ row "GET" "/api/status/devices" exact device_status authenticated false
    ∷ row "GET" "/api/topology" prefix site_topology authenticated false
    ∷ row "POST" "/api/connector/keygen-test" exact keygen_test authenticated false
    ∷ row "POST" "/api/connector/endpoint-test" exact endpoint_test authenticated false
    ∷ row "POST" "/api/connector/sase-test" exact sase_test authenticated false
    ∷ row "POST" "/api/connector/sase-key" exact sase_key_store authenticated false
    ∷ row "POST" "/api/connector/credential" exact credential_store authenticated false
    ∷ row "POST" "/api/connector/tls-probe" exact tls_probe authenticated false
    ∷ row "GET" "/api/connector/test-result" prefix api_test_result authenticated false
    ∷ row "GET" "/api/connector/keys-state" exact keys_state authenticated false
    ∷ row "GET" "/api/ai/credentials" exact ai_credentials authenticated false
    ∷ row "POST" "/api/ai/credential" exact ai_credential_store authenticated false
    ∷ row "GET" "/api/chat/sessions" prefix chat_sessions authenticated false
    ∷ row "GET" "/api/chat/session" prefix chat_session authenticated false
    ∷ row "POST" "/api/chat/session/delete" exact chat_session_delete authenticated false
    ∷ row "POST" "/api/chat/session/patch" exact chat_session_patch authenticated false
    ∷ row "GET" "/api/user/credentials" exact user_credentials authenticated false
    ∷ row "POST" "/api/user/credential" exact user_credential_store authenticated false
    ∷ row "GET" "/api/collection/overview" prefix collection_overview authenticated false
    ∷ row "GET" "/api/collection/samples" prefix collection_samples authenticated false
    ∷ row "GET" "/api/collection/sample" prefix collection_sample authenticated false
    ∷ row "POST" "/api/chat" exact chat_send authenticated false
    ∷ row "GET" "/api/chat/models" exact chat_models authenticated false
    ∷ row "GET" "/api/chat/result" prefix chat_result authenticated false
    ∷ row "GET" "/api/techdoc/status" exact tech_doc_status authenticated false
    ∷ row "GET" "/api/techdoc/result" prefix tech_doc_result authenticated false
    ∷ row "POST" "/api/techdoc/refresh" exact tech_doc_refresh authenticated false
    ∷ row "GET" "/api/techdoc/progress" exact tech_doc_progress authenticated false
    ∷ row "POST" "/api/techdoc/cancel" exact tech_doc_cancel authenticated false
    ∷ row "GET" "/api/benchtest/datasets" prefix benchtest_datasets authenticated false
    ∷ row "POST" "/api/benchtest/datasets" prefix benchtest_upload authenticated false
    ∷ row "DELETE" "/api/benchtest/datasets" prefix benchtest_delete authenticated false
    ∷ row "GET" "/api/benchtest/summary" prefix benchtest_summary authenticated false
    ∷ row "GET" "/api/benchtest/rows" prefix benchtest_rows authenticated false
    ∷ row "GET" "/api/benchtest/export" prefix benchtest_export authenticated false
    ∷ row "GET" "/api/benchtest/result" prefix benchtest_result authenticated false
    ∷ row "GET" "/api/benchtest/run/progress" exact benchtest_run_progress authenticated false
    ∷ row "POST" "/api/benchtest/run/cancel" exact benchtest_run_cancel authenticated false
    ∷ row "GET" "/api/benchtest/runs" prefix benchtest_runs authenticated false
    ∷ row "GET" "/api/benchtest/run" prefix benchtest_run_info authenticated false
    ∷ row "POST" "/api/benchtest/run" prefix benchtest_run_start authenticated false
    ∷ row "GET" "/api/benchtest/cases" prefix benchtest_cases authenticated false
    ∷ row "GET" "/api/benchtest/case" prefix benchtest_case authenticated false
    ∷ row "GET" "/api/techdoc/documents" prefix tech_doc_documents authenticated false
    ∷ row "GET" "/api/logs" prefix logs authenticated false
    ∷ []
