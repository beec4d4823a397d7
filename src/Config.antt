-- ===== src/Config.antt =====
-- src/agent_control_plane/config.py: `AppConfig`, its validation and what is read from it.
pub mod Environment
pub mod Laws
pub mod Secrecy
use llm_agent_control_plane.Base.{
  ℤ, pos, ltbℤ, String, ◌<>◌, Bool, true, false, not, ◌&&◌, Option, none, some, List, [], ◌∷◌, ◌++◌,
  ◌==◌, string_eq, contains, join, Result, ok, raised, ◌>>=◌, Exc, configuration_error,
  if◌then◌else◌,
}
use llm_agent_control_plane.Models.{Fields, str, end, field}
use llm_agent_control_plane.Platform.{Bytes}
use llm_agent_control_plane.Host.{Host}
use llm_agent_control_plane.Agent.{LlmAdapterMode}

-- `EnvironmentMode`
pub data EnvironmentMode : Type 0 where
  local test production : EnvironmentMode

unfoldable pub mode_value : EnvironmentMode → String
mode_value local = "local"
mode_value test = "test"
mode_value production = "production"

-- `AppConfig`; a path is a text.
pub record AppConfig : Type 0 where
  pub environment_mode : EnvironmentMode
  pub require_api_auth : Bool
  pub allowed_api_keys_file : Option String
  pub allowed_origins : List String
  pub max_request_body_bytes : ℤ
  pub audit_log_dir : String
  pub audit_retention_days : ℤ
  pub enable_strict_provenance : Bool
  pub provenance_hmac_key_file : Option String
  pub require_approval_token : Bool
  pub enable_rate_limit_guidance : Bool
  pub enable_debug_errors : Bool
  pub allow_live_external_tools : Bool
  pub allow_shell_tools : Bool
  pub llm_adapter_mode : LlmAdapterMode
  pub allow_live_llm_calls : Bool
  pub llm_provider_name : Option String
  pub llm_model_name : Option String
  pub policy_path : String
  pub api_keys : List String

-- `if given: errors.append(message)`
unfoldable pub complain : Bool → String → List String
complain given message = if given then message ∷ [] else []

-- `not xs` of a tuple or a set
unfoldable pub is_empty : List String → Bool
is_empty [] = true
is_empty (x ∷ xs) = false

-- The last check of production.
unfoldable pub key_file_errors : Host → Option String → List String
unfolding complain
key_file_errors host none = "production strict provenance requires provenance_hmac_key_file" ∷ []
key_file_errors host (some path) =
    complain (not (host.is_file path)) ("provenance key file not found: " <> host.name_of path)

-- The part of `validate` for production.
unfoldable pub production_errors : Host → AppConfig → List String
unfolding complain is_empty key_file_errors
production_errors host config =
    complain (not config.require_api_auth) "production requires API authentication"
    ++ complain (is_empty config.api_keys) "production requires at least one API key"
    ++ complain (is_empty config.allowed_origins) "production requires explicit allowed_origins"
    ++ complain (contains config.allowed_origins "*") "production disallows wildcard CORS origins"
    ++ complain config.enable_debug_errors "production disallows debug error responses"
    ++ (if config.enable_strict_provenance
        then key_file_errors host config.provenance_hmac_key_file
        else [])

unfoldable pub mode_errors : Host → AppConfig → EnvironmentMode → List String
unfolding production_errors
mode_errors host config production = production_errors host config
mode_errors host config test = []
mode_errors host config local = []

-- The list `errors` of `validate`.
unfoldable pub errors_of : Host → AppConfig → List String
unfolding complain is_empty mode_errors
errors_of host config =
    complain (ltbℤ config.max_request_body_bytes (pos 1024))
      "max_request_body_bytes must be at least 1024"
    ++ complain (ltbℤ (pos 10485760) config.max_request_body_bytes)
        "max_request_body_bytes must not exceed 10485760"
    ++ complain (ltbℤ config.audit_retention_days (pos 1)) "audit_retention_days must be at least 1"
    ++ complain (ltbℤ (pos 3650) config.audit_retention_days)
        "audit_retention_days must not exceed 3650"
    ++ complain (not (host.is_file config.policy_path))
        ("policy file not found: " <> host.name_of config.policy_path)
    ++ complain config.allow_live_external_tools "allow_live_external_tools must remain disabled"
    ++ complain config.allow_shell_tools "allow_shell_tools must remain disabled"
    ++ complain config.allow_live_llm_calls
        "live LLM calls are not implemented; keep allow_live_llm_calls false"
    ++ mode_errors host config config.environment_mode
    ++ complain (config.require_api_auth && is_empty config.api_keys)
        "require_api_auth is set but no API keys are configured"

-- `validate`
unfoldable pub validate : Host → AppConfig → Result (Unit {0})
unfolding is_empty
validate host config =
    let errors = errors_of host config in
    if is_empty errors then ok tt else raised (configuration_error (join "; " errors))

-- `load_provenance_hmac_key`
unfoldable pub load_provenance_hmac_key : Host → AppConfig → Result (Option Bytes)
load_provenance_hmac_key host config = elim config.provenance_hmac_key_file [
  | none ↦ ok none
  | some path ↦ do
    raw ← host.read_bytes path
    elim raw [
      | [] ↦ raised (configuration_error ("provenance key file is empty: " <> host.name_of path))
      | b ∷ bs ↦ ok (some (b ∷ bs))
    ]
]

-- `production_error_detail`
unfoldable pub production_error_detail : Host → AppConfig → Exc → Fields
production_error_detail host config e =
    if config.enable_debug_errors
    then field "detail" (str (host.str_of_exc e)) (field "error_type" (str (host.type_name e)) end)
    else field "detail" (str "internal_error") end
