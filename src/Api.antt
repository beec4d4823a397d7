-- ===== src/Api.antt =====
-- src/agent_control_plane/api.py: the middleware, the endpoint /run with its dependency, and the
-- exception handlers. What a request of HTTP carries, and the
-- body after pydantic has accepted it, come from FastAPI.
pub mod Types
pub mod Application
pub mod Authentication
pub mod Authority
pub mod Construction
pub mod Startup
use llm_agent_control_plane.Base.{
  ℕ, ℤ, pos, ltbℤ, String, ◌<>◌, Bool, true, false, not, ◌&&◌, ◌||◌, Option, none, some, List, [],
  ◌∷◌, ◌==◌, string_eq, contains, strip, truthy, starts_with, Result, ok, raised, ◌>>=◌, ◌>>◌, Exc,
  configuration_error, runtime_error, value_error, key_error, llm_adapter_error,
  policy_integrity_error, type_error, os_error, yaml_error, validation_error, overflow_error,
  if◌then◌else◌, truthy?,
}
unfoldable pub use Types.*
unfoldable pub use Application.*
use Prim.Native.String
use llm_agent_control_plane.Models.{
  Value, AgentRequest, RetrievedChunk, PipelineResult, Fields, str, end, field,
}
use llm_agent_control_plane.Platform.{Platform, Bytes}
use llm_agent_control_plane.Host.{Host}
use llm_agent_control_plane.Agent.{LlmAdapter, create_llm_adapter}
use llm_agent_control_plane.Audit.{normalize_correlation_id, write_operational_audit}
use llm_agent_control_plane.Config.{
  AppConfig, EnvironmentMode, mode_value, validate, load_provenance_hmac_key,
  production_error_detail,
}
use llm_agent_control_plane.Config.Environment.{load_config_from_env}
use llm_agent_control_plane.Api.Types.{
  RunRequestBody, HttpRequest, Response, payload, dumped, detail_response, Failure, http_exception,
  unforeseen, App,
}
use llm_agent_control_plane.Pipeline.{
  World, Clock, ControlPlanePipeline, Outcome, run_vulnerable, run_protected_at,
}

-- `authorization[7:]`
unfoldable pub drop : ℕ → String → String
drop ℕ.zero s = s
drop (ℕ.suc n) String.[] = ""
drop (ℕ.suc n) (String.◌∷◌ c s) = drop n s

unfoldable pub bearer_token : Platform → Option String → Option String
unfolding drop
bearer_token platform none = none
bearer_token platform (some authorization) =
    let token = strip (drop 7 authorization) in
    if truthy authorization && starts_with (platform.lower authorization) "bearer " && truthy token
    then some token
    else none

-- `_extract_api_key`
unfoldable pub extract_api_key : Platform → Option String → Option String → Option String
unfolding bearer_token
extract_api_key platform none authorization = bearer_token platform authorization
extract_api_key platform (some x_api_key) authorization =
    if truthy (strip x_api_key) then some (strip x_api_key) else bearer_token platform authorization

module _ (platform : Platform) (host : Host) (clock : Clock) where
  -- The audit line of the middleware, and of the dependency.
  unfoldable pub log_refusal :
      HttpRequest → (fallback event_type stage policy_reason : String) → World → Outcome (Unit {0})
  log_refusal http fallback event_type stage policy_reason w =
      let correlation_id = normalize_correlation_id http.x_correlation_id fallback in
      let (result, lines) =
        write_operational_audit clock.audit_fault clock.stamp event_type correlation_id
          correlation_id stage policy_reason w.lines in
      (result, record w { lines = lines })

  -- Write the line, then answer, or let the exception of the audit file through.
  unfoldable pub after_refusal {ℓ} : {A : Type ℓ} → Outcome (Unit {0}) → A → (Exc → A) → A × World
  after_refusal (ok done, w) refusal failed = (refusal, w)
  after_refusal (raised e, w) refusal failed = (failed e, w)

  -- The check of `size`.
  unfoldable pub within_limit :
      ℤ
      → HttpRequest
      → Option ℤ
      → (World → Result Response × World)
      → World
      → Result Response × World
  unfolding log_refusal after_refusal detail_response
  within_limit max_body_bytes http none call_next w =
      (ok (detail_response 400 "invalid_content_length"), w)
  within_limit max_body_bytes http (some size) call_next w =
      if ltbℤ max_body_bytes size
      then after_refusal
          (log_refusal http "api-body-limit" "request_body_limit_blocked" "api_middleware"
            "request_entity_too_large" w)
          (ok (detail_response 413 "request_entity_too_large")) raised
      else call_next w

  -- `MaxBodySizeMiddleware.dispatch`
  unfoldable pub dispatch :
      ℤ → HttpRequest → (World → Result Response × World) → World → Result Response × World
  unfolding within_limit
  dispatch max_body_bytes http call_next w =
      if contains ("POST" ∷ "PUT" ∷ "PATCH" ∷ []) http.method
      then elim http.content_length [
        | none ↦ call_next w
        | some content_length ↦
            within_limit max_body_bytes http (host.int_of content_length) call_next w
      ]
      else call_next w

  -- `presented is not None and presented in cfg.api_keys`
  unfoldable pub is_accepted : AppConfig → Option String → Bool
  is_accepted config none = false
  is_accepted config (some presented) = contains config.api_keys presented

  -- `require_api_key`: the exception that it raises, if it does.
  unfoldable pub require_api_key : AppConfig → HttpRequest → World → Option Failure × World
  unfolding is_accepted log_refusal after_refusal
  require_api_key config http w =
      if not config.require_api_auth
      then (none, w)
      else if not (is_accepted config (extract_api_key platform http.x_api_key http.authorization))
      then after_refusal
          (log_refusal http "api-unauthenticated" "api_auth_failure" "api_auth" "unauthorized" w)
          (some (http_exception 401 "unauthorized")) (λ e. some (unforeseen e))
      else (none, w)

  -- `unhandled_exception_handler`
  unfoldable pub unhandled_exception_handler : AppConfig → Failure → Response
  unfolding detail_response
  unhandled_exception_handler config (http_exception status_code detail) =
      detail_response status_code detail
  unhandled_exception_handler config (unforeseen e) = record {
    status_code = 500;
    content = payload (production_error_detail host config e);
  }

  -- `validation_exception_handler`, given `exc.errors()`
  unfoldable pub validation_exception_handler : AppConfig → Value → Response
  unfolding detail_response
  validation_exception_handler config errors =
      if config.enable_debug_errors
      then record { status_code = 422; content = payload (field "detail" errors end) }
      else detail_response 422 "validation_error"

  -- `health`
  unfoldable pub health : AppConfig → Fields
  health config =
      field "status" (str "ok") (field "mode" (str (mode_value config.environment_mode)) end)

-- The AgentRequest of `run_turn`
unfoldable pub agent_request : RunRequestBody → Option String → AgentRequest
agent_request body x_correlation_id = record {
  request_id = body.request_id;
  correlation_id = some (
      normalize_correlation_id
        (if truthy? body.correlation_id then body.correlation_id else x_correlation_id)
        body.request_id);
  user_id = body.user_id;
  session_id = body.session_id;
  tenant_id = body.tenant_id;
  role = body.role;
  model = "simulated-v1";
  human_approval = body.human_approval;
  approval_token = none;
  user_message = body.user_message;
  retrieved_chunks = body.retrieved_chunks;
  tool_output_segments = [];
  scenario = body.scenario;
}

module _ (platform : Platform) (host : Host) (clock : Clock) (app : App) where
  -- `run_turn`
  unfoldable pub run_turn : RunRequestBody → Option String → World → Outcome PipelineResult
  unfolding agent_request
  run_turn body x_correlation_id w =
      let request = agent_request body x_correlation_id in
      if body.path == "vulnerable"
      then run_vulnerable platform app.pipeline clock request w
      else run_protected_at platform app.pipeline clock request host app.config.policy_path w

  -- The response for what the endpoint returns or raises.
  unfoldable pub respond : Outcome PipelineResult → Response × World
  unfolding unhandled_exception_handler
  respond (ok result, w) = (record { status_code = 200; content = dumped result }, w)
  respond (raised e, w) =
      (unhandled_exception_handler platform host clock app.config (unforeseen e), w)

  -- After the dependency.
  unfoldable pub after_dependency :
      HttpRequest → RunRequestBody → Option Failure × World → Response × World
  unfolding respond unhandled_exception_handler
  after_dependency http body (some failure, w) =
      (unhandled_exception_handler platform host clock app.config failure, w)
  after_dependency http body (none, w) = respond (run_turn body http.x_correlation_id w)

  -- What the middleware answers, or the response for what it raises.
  unfoldable pub answered : Result Response × World → Response × World
  unfolding unhandled_exception_handler
  answered (ok response, w) = (response, w)
  answered (raised e, w) =
      (unhandled_exception_handler platform host clock app.config (unforeseen e), w)

  -- What the middleware hands on to. An exception of it goes through the middleware, to the same answer.
  unfoldable pub endpoint : HttpRequest → RunRequestBody → World → Result Response × World
  unfolding after_dependency
  endpoint http body w =
      let (response, w') =
        after_dependency http body (require_api_key platform host clock app.config http w) in
      (ok response, w')

  -- `POST /run`, from the middleware on.
  unfoldable pub post_run : HttpRequest → RunRequestBody → World → Response × World
  unfolding dispatch answered endpoint
  post_run http body w =
      answered
        (dispatch platform host clock app.config.max_request_body_bytes http (endpoint http body) w)
