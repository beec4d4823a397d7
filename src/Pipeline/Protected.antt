-- ===== src/Pipeline/Protected.antt =====
-- src/agent_control_plane/pipeline.py: `run_protected`.
use llm_agent_control_plane.Base.{
  String, Bool, true, false, not, Option, none, some, Result, ok, raised, Exc, value_error,
  key_error, llm_adapter_error, configuration_error, policy_integrity_error, type_error, os_error,
  yaml_error, validation_error, runtime_error, overflow_error, if◌then◌else◌,
}
use llm_agent_control_plane.Models.{
  AgentRequest, ToolCallPayload, ModelTurnResult, BrokerDecision, PipelineResult, SimulationResult,
  ApprovalToken,
}
use llm_agent_control_plane.Platform.{Platform}
use llm_agent_control_plane.Policy.{PolicyDocument}
use llm_agent_control_plane.Approval.{Registry, mark_approval_token_used}
use llm_agent_control_plane.Broker.{broker_tool_request}
use llm_agent_control_plane.Simulator.{simulate_tool_execution}
use llm_agent_control_plane.Agent.{LlmAdapterResponse, to_model_turn_result}
use llm_agent_control_plane.Filter.{
  filter_output, build_filter_context_from_request, internal_display,
}
use llm_agent_control_plane.Pipeline.Events.{
  audit_event, filter_event, audit_event_for_tool, blocked_event_type,
  approval_required_from_reason, approval_required_from_broker,
}
use llm_agent_control_plane.Pipeline.State.{World, Clock, ControlPlanePipeline, Outcome, log_then}

-- `PipelineResult(...)` of the protected path, nothing executed.
unfoldable pub protected_result :
    AgentRequest → Bool → String → String → String → String → PipelineResult
protected_result request allowed stage reason model_text filtered_output = record {
  request_id = request.request_id;
  path = "protected";
  allowed = allowed;
  stage = stage;
  reason = reason;
  model_text = model_text;
  filtered_output = filtered_output;
  tool_executed = false;
  simulation = none;
}

-- `if request.approval_token is not None: mark_approval_token_used(...)`
unfoldable pub consume_token : Option ApprovalToken → Registry → Registry
consume_token none used = used
consume_token (some token) used = mark_approval_token_used token.approval_id used

module _ (clock : Clock) (request : AgentRequest) (text filtered : String) where
  -- After the simulator has returned.
  unfoldable pub executed :
      ToolCallPayload → BrokerDecision → SimulationResult → World → Outcome PipelineResult
  unfolding protected_result log_then consume_token
  executed t b simulation w =
      log_then clock
        (audit_event_for_tool request t "tool_allowed" "simulation" true b.reason
          (approval_required_from_broker b b.policy_decision) b.policy_decision (some b))
        (record w { used = consume_token request.approval_token w.used })
        (ok (record (protected_result request true "simulation" b.reason text filtered) {
          tool_executed = true;
          simulation = some simulation;
        }))

  simulate :
      ToolCallPayload → BrokerDecision → Result SimulationResult → World → Outcome PipelineResult
  unfolding executed
  simulate t b (ok simulation) w = executed t b simulation w
  simulate t b (raised e) w = (raised e, w)

  -- After the broker has decided.
  unfoldable pub after_broker : ToolCallPayload → BrokerDecision → World → Outcome PipelineResult
  unfolding simulate protected_result log_then
  after_broker t b w =
      if not b.schema_valid
      then log_then clock
          (audit_event_for_tool request t "schema_validation_failed" "schema_validation" false
            b.reason false none none)
          w (ok (protected_result request false "schema_validation" b.reason text filtered))
      else if not b.allowed
      then log_then clock
          (audit_event_for_tool request t (blocked_event_type b.reason) "tool_broker" false b.reason
            (approval_required_from_reason b.reason b.policy_decision) b.policy_decision (some b))
          w (ok (protected_result request false "tool_broker" b.reason text filtered))
      else simulate t b (simulate_tool_execution request t) w

  unfoldable pub brokered : ToolCallPayload → Result BrokerDecision → World → Outcome PipelineResult
  brokered t (ok b) w = after_broker t b w
  brokered t (raised e) w = (raised e, w)

module _ (platform : Platform) (pipeline : ControlPlanePipeline) (policy : PolicyDocument)
    (clock : Clock) (request : AgentRequest) where
  -- After the output filter has let the text through.
  unfoldable pub after_filter :
      String → String → Option ToolCallPayload → World → Outcome PipelineResult
  unfolding protected_result log_then
  after_filter text filtered none w =
      log_then clock
        (audit_event request "model_response_allowed" "complete" true "no_tool_call" false) w
        (ok (protected_result request true "complete" "no_tool_call" text filtered))
  after_filter text filtered (some t) w =
      brokered clock request text filtered t
        (broker_tool_request platform pipeline.options request policy t clock.now w.used) w

  -- After the model turn.
  unfoldable pub after_model : ModelTurnResult → World → Outcome PipelineResult
  unfolding protected_result log_then
  after_model turn w =
      let result =
        filter_output platform turn.natural_language
          (build_filter_context_from_request platform request internal_display) none in
      if not result.allowed
      then log_then clock (filter_event request result) w (
          ok
            (protected_result request false "output_filter" result.reason turn.natural_language ""))
      else after_filter turn.natural_language result.filtered_text turn.tool_call w

  -- `except LLMAdapterError`; every other exception goes through.
  unfoldable pub adapter_failed : Exc → World → Outcome PipelineResult
  unfolding log_then
  adapter_failed (llm_adapter_error message) w =
      log_then clock (audit_event request "adapter_failure" "llm_adapter" false message false) w
        (raised (llm_adapter_error message))
  adapter_failed (value_error m) w = (raised (value_error m), w)
  adapter_failed (key_error m) w = (raised (key_error m), w)
  adapter_failed (configuration_error m) w = (raised (configuration_error m), w)
  adapter_failed (policy_integrity_error m) w = (raised (policy_integrity_error m), w)
  adapter_failed (os_error m) w = (raised (os_error m), w)
  adapter_failed (yaml_error m) w = (raised (yaml_error m), w)
  adapter_failed (validation_error m) w = (raised (validation_error m), w)
  adapter_failed (runtime_error m) w = (raised (runtime_error m), w)
  adapter_failed type_error w = (raised type_error, w)
  adapter_failed overflow_error w = (raised overflow_error, w)

  unfoldable pub generated : Result LlmAdapterResponse → World → Outcome PipelineResult
  unfolding to_model_turn_result
  generated (ok response) w = after_model (to_model_turn_result response) w
  generated (raised e) w = adapter_failed e w

  -- `run_protected`
  unfoldable pub run_protected : World → Outcome PipelineResult
  run_protected w = generated (pipeline.llm_adapter.generate request) w
