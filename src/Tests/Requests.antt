-- ===== src/Tests/Requests.antt =====
-- A configuration, an application and a request by HTTP.
use llm_agent_control_plane.Base.{
  pos, String, Bool, true, false, none, some, List, [], ◌∷◌, string_eq, option_eq, list_eq,
}
use llm_agent_control_plane.Models.{trust_eq, source_eq}
use llm_agent_control_plane.Agent.{simulated_llm_adapter, simulated}
use llm_agent_control_plane.Filter.{destination_eq, sensitivity_eq}
use llm_agent_control_plane.Config.{AppConfig, local, production}
use llm_agent_control_plane.Api.{RunRequestBody, HttpRequest, App}
use llm_agent_control_plane.Tests.Fixtures.{lax}
use llm_agent_control_plane.Tests.Files.{digesting}

abbrev pub config_of : Bool → List String → AppConfig
config_of in_production keys = record {
  environment_mode = elim in_production [ true ↦ production | false ↦ local ];
  require_api_auth = true;
  allowed_api_keys_file = none;
  allowed_origins = "https://example.test" ∷ [];
  max_request_body_bytes = pos 1048576;
  audit_log_dir = "audit_logs";
  audit_retention_days = pos 90;
  enable_strict_provenance = false;
  provenance_hmac_key_file = none;
  require_approval_token = false;
  enable_rate_limit_guidance = true;
  enable_debug_errors = false;
  allow_live_external_tools = false;
  allow_shell_tools = false;
  llm_adapter_mode = simulated;
  allow_live_llm_calls = false;
  llm_provider_name = none;
  llm_model_name = none;
  policy_path = "policy";
  api_keys = keys;
}

abbrev pub config : AppConfig
config = config_of true ("key-1" ∷ [])

abbrev pub body : RunRequestBody
body = record {
  request_id = "req-1";
  correlation_id = none;
  user_id = "user-1";
  session_id = "sess-1";
  tenant_id = "tenant-a";
  role = "user";
  human_approval = false;
  user_message = "hello";
  scenario = "safe_read";
  path = "protected";
  retrieved_chunks = [];
}

abbrev pub http : HttpRequest
http = record {
  method = "POST";
  content_length = some "4096";
  x_correlation_id = none;
  x_api_key = some "key-1";
  authorization = none;
}

abbrev pub app : App
app = record {
  config = config;
  pipeline = record { options = lax; llm_adapter = simulated_llm_adapter digesting 3 };
}
