-- ===== src/Api/Application.antt =====
-- src/agent_control_plane/api.py: `create_app`, as far as it builds the pipeline, and `get_app`.
use llm_agent_control_plane.Base.{
  ℕ, String, Option, none, some, Result, ok, raised, ◌>>=◌, ◌>>◌, configuration_error,
  runtime_error, if◌then◌else◌,
}
use llm_agent_control_plane.Platform.{Platform, Bytes}
use llm_agent_control_plane.Host.{Host}
use llm_agent_control_plane.Agent.{LlmAdapter, create_llm_adapter}
use llm_agent_control_plane.Config.{AppConfig, validate, load_provenance_hmac_key}
use llm_agent_control_plane.Config.Environment.{load_config_from_env}
use llm_agent_control_plane.Pipeline.{ControlPlanePipeline}
use llm_agent_control_plane.Api.Types.{App}

module _ (platform : Platform) (host : Host) (elapsed_ms : ℕ) where
  -- `if cfg.enable_strict_provenance: provenance_key = cfg.load_provenance_hmac_key()`
  unfoldable pub provenance_key_of : AppConfig → Result (Option Bytes)
  provenance_key_of config =
      if config.enable_strict_provenance then load_provenance_hmac_key host config else ok none

  -- `create_llm_adapter_from_config`, for an AppConfig
  unfoldable pub create_llm_adapter_from_config : AppConfig → LlmAdapter
  unfolding create_llm_adapter
  create_llm_adapter_from_config config =
      create_llm_adapter platform elapsed_ms config.llm_adapter_mode config.llm_provider_name

  -- The pipeline object that `create_app` makes.
  unfoldable pub pipeline_of : AppConfig → Option Bytes → ControlPlanePipeline
  unfolding create_llm_adapter_from_config
  pipeline_of config provenance_key = record {
    options = record {
      require_provenance_signature = config.enable_strict_provenance;
      provenance_hmac_key = provenance_key;
      require_approval_token = config.require_approval_token;
    };
    llm_adapter = create_llm_adapter_from_config config;
  }

  -- `create_app`
  unfoldable pub create_app : AppConfig → Result App
  unfolding provenance_key_of pipeline_of
  create_app config = do
    validate host config
    provenance_key ← provenance_key_of config
    ok (record { config = config; pipeline = pipeline_of config provenance_key })

  -- `except ConfigurationError`
  unfoldable pub as_runtime_error : Result App → Result App
  as_runtime_error (raised (configuration_error message)) = raised (runtime_error message)
  as_runtime_error r = r

  -- `get_app`, from `_app_instance` to `_app_instance`
  unfoldable pub get_app : String → Option App → Result App × Option App
  unfolding as_runtime_error
  get_app repo_root (some app) = (ok app, some app)
  get_app repo_root none =
      remembered (as_runtime_error (load_config_from_env platform host repo_root >>= create_app))
    where
      remembered : Result App → Result App × Option App
      remembered (ok app) = (ok app, some app)
      remembered (raised e) = (raised e, none)
