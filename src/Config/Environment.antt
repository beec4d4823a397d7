-- ===== src/Config/Environment.antt =====
-- src/agent_control_plane/config.py: `load_config_from_env`.
use llm_agent_control_plane.Base.{
  ℤ, pos, String, ◌<>◌, Bool, true, false, not, ◌||◌, Option, none, some, List, [], ◌∷◌, ◌==◌,
  string_eq, contains, strip, truthy, truthy?, starts_with, split_on, split_lines, Result, ok,
  raised, ◌>>=◌, configuration_error, if◌then◌else◌,
}
use llm_agent_control_plane.Platform.{Platform}
use llm_agent_control_plane.Host.{Host}
use llm_agent_control_plane.Agent.{LlmAdapterMode, simulated, disabled_external}
use llm_agent_control_plane.Config.{EnvironmentMode, local, test, production, AppConfig}

module _ (platform : Platform) (host : Host) where
  -- `_env_bool`
  unfoldable pub env_bool : String → Bool → Bool
  env_bool name default = elim (host.environ name) [
    | none ↦ default
    | some raw ↦ contains ("1" ∷ "true" ∷ "yes" ∷ "on" ∷ []) (platform.lower (strip raw))
  ]

  -- `_env_int`
  unfoldable pub env_int : String → ℤ → Result ℤ
  env_int name default = elim (host.environ name) [
    | none ↦ ok default
    | some raw ↦ elim (host.int_of raw) [
      | none ↦ raised (configuration_error ("invalid integer for " <> name))
      | some i ↦ ok i
    ]
  ]

-- The parts that are not blank, without the white space around them.
unfoldable pub stripped_parts : List String → List String
stripped_parts [] = []
stripped_parts (part ∷ parts) =
    let rest = stripped_parts parts in if truthy (strip part) then strip part ∷ rest else rest

-- `_parse_origins`
unfoldable pub parse_origins : Option String → List String → List String
unfolding stripped_parts
parse_origins none default = default
parse_origins (some raw) default =
    if strip raw == "" then default else stripped_parts (split_on b',' raw)

-- `keys.add(key)`
unfoldable pub add_key : String → List String → List String
add_key key keys = if contains keys key then keys else key ∷ keys

-- The loop over the lines of the file.
unfoldable pub keys_of_lines : List String → List String → List String
unfolding add_key
keys_of_lines [] keys = keys
keys_of_lines (line ∷ lines) keys =
    let stripped = strip line in
    keys_of_lines lines
      (if not (truthy stripped) || starts_with stripped "#" then keys else add_key stripped keys)

unfoldable pub inline_keys : Option String → List String
unfolding add_key
inline_keys none = []
inline_keys (some inline_key) =
    if truthy (strip inline_key) then add_key (strip inline_key) [] else []

-- `_load_api_keys`
unfoldable pub load_api_keys : Host → Option String → Option String → Result (List String)
unfolding inline_keys keys_of_lines
load_api_keys host none inline_key = ok (inline_keys inline_key)
load_api_keys host (some keys_file) inline_key =
    if not (host.is_file keys_file)
    then raised (configuration_error ("API keys file not found: " <> host.name_of keys_file))
    else do
      text ← host.read_text keys_file
      ok (keys_of_lines (split_lines text) (inline_keys inline_key))

-- `EnvironmentMode(mode_raw)` and `LLMAdapterMode(adapter_mode_raw)`
unfoldable pub mode_of : String → Result EnvironmentMode
mode_of raw =
    if raw == "local"
    then ok local
    else if raw == "test"
    then ok test
    else if raw == "production"
    then ok production
    else raised (configuration_error ("invalid ACP_ENVIRONMENT: " <> raw))

unfoldable pub adapter_mode_of : String → Result LlmAdapterMode
adapter_mode_of raw =
    if raw == "simulated"
    then ok simulated
    else if raw == "disabled_external"
    then ok disabled_external
    else raised (configuration_error ("invalid ACP_LLM_ADAPTER_MODE: " <> raw))

-- `os.environ.get(name, default)`
unfoldable pub environ_or : Host → String → String → String
environ_or host name default = elim (host.environ name) [ none ↦ default | some raw ↦ raw ]

-- `Path(raw).expanduser() if raw else None`
unfoldable pub optional_path : Host → Option String → Option String
optional_path host raw = if truthy? raw then optional_path_of raw else none
  where
    optional_path_of : Option String → Option String
    optional_path_of none = none
    optional_path_of (some s) = some (host.expanduser s)

-- `raw.strip() if raw else None`
unfoldable pub optional_name : Option String → Option String
optional_name none = none
optional_name (some raw) = if truthy raw then some (strip raw) else none

-- The defaults that go by the mode: the origins, authentication and debug errors.
unfoldable pub default_origins : EnvironmentMode → List String
default_origins local = "http://127.0.0.1:8080" ∷ "http://localhost:8080" ∷ []
default_origins test = "http://127.0.0.1:8080" ∷ []
default_origins production = []

unfoldable pub default_require_auth : EnvironmentMode → Bool
default_require_auth production = true
default_require_auth mode = false

unfoldable pub default_debug : EnvironmentMode → Bool
default_debug production = false
default_debug mode = true

-- `load_config_from_env`, given the path of the repository.
unfoldable pub load_config_from_env : Platform → Host → String → Result AppConfig
unfolding env_bool env_int parse_origins load_api_keys mode_of adapter_mode_of environ_or
    optional_path optional_name default_origins default_require_auth default_debug
load_config_from_env platform host repo_root = do
  mode ← mode_of (platform.lower (strip (environ_or host "ACP_ENVIRONMENT" "local")))
  api_keys ←
      load_api_keys host (optional_path host (host.environ "ACP_ALLOWED_API_KEYS_FILE"))
        (host.environ "ACP_API_KEY")
  adapter_mode ←
      adapter_mode_of (platform.lower (strip (environ_or host "ACP_LLM_ADAPTER_MODE" "simulated")))
  body_bytes ← env_int platform host "ACP_MAX_REQUEST_BODY_BYTES" (pos 1048576)
  retention ← env_int platform host "ACP_AUDIT_RETENTION_DAYS" (pos 90)
  ok (record {
    environment_mode = mode;
    require_api_auth = env_bool platform host "ACP_REQUIRE_API_AUTH" (default_require_auth mode);
    allowed_api_keys_file = optional_path host (host.environ "ACP_ALLOWED_API_KEYS_FILE");
    allowed_origins = parse_origins (host.environ "ACP_ALLOWED_ORIGINS") (default_origins mode);
    max_request_body_bytes = body_bytes;
    audit_log_dir =
        host.expanduser (environ_or host "ACP_AUDIT_LOG_DIR" (repo_root <> "/audit_logs"));
    audit_retention_days = retention;
    enable_strict_provenance = env_bool platform host "ACP_ENABLE_STRICT_PROVENANCE" false;
    provenance_hmac_key_file = optional_path host (host.environ "ACP_PROVENANCE_HMAC_KEY_FILE");
    require_approval_token = env_bool platform host "ACP_REQUIRE_APPROVAL_TOKEN" false;
    enable_rate_limit_guidance = env_bool platform host "ACP_ENABLE_RATE_LIMIT_GUIDANCE" true;
    enable_debug_errors = env_bool platform host "ACP_ENABLE_DEBUG_ERRORS" (default_debug mode);
    allow_live_external_tools = env_bool platform host "ACP_ALLOW_LIVE_EXTERNAL_TOOLS" false;
    allow_shell_tools = env_bool platform host "ACP_ALLOW_SHELL_TOOLS" false;
    llm_adapter_mode = adapter_mode;
    allow_live_llm_calls = env_bool platform host "ACP_ALLOW_LIVE_LLM_CALLS" false;
    llm_provider_name = optional_name (host.environ "ACP_LLM_PROVIDER_NAME");
    llm_model_name = optional_name (host.environ "ACP_LLM_MODEL_NAME");
    policy_path = host.expanduser (
        environ_or host "ACP_POLICY_PATH"
          (environ_or host "POLICY_PATH" (repo_root <> "/policies/default.yaml")));
    api_keys = api_keys;
  })
