-- ===== src/Pipeline/Vulnerable.antt =====
-- src/agent_control_plane/pipeline.py: `run_vulnerable`, the demonstration without a broker.
use llm_agent_control_plane.Base.{String, true, false, Option, none, some, Result, ok, raised}
use llm_agent_control_plane.Models.{AgentRequest, ToolCallPayload, PipelineResult, Fields, get}
use llm_agent_control_plane.Platform.{Platform, text_of}
use llm_agent_control_plane.Simulator.{simulate_vulnerable_execution}
use llm_agent_control_plane.Agent.{LlmAdapterResponse, to_model_turn_result}
use llm_agent_control_plane.Audit.{AuditEvent}
use llm_agent_control_plane.Pipeline.Events.{audit_event, context_ids_of, provenance_trust}
use llm_agent_control_plane.Pipeline.State.{World, Clock, ControlPlanePipeline, Outcome, log_then}

vulnerable_result : AgentRequest → String → String → String → PipelineResult
vulnerable_result request stage reason text = record {
  request_id = request.request_id;
  path = "vulnerable";
  allowed = true;
  stage = stage;
  reason = reason;
  model_text = text;
  filtered_output = text;
  tool_executed = false;
  simulation = none;
}

module _ (platform : Platform) where
  -- `str(unsafe.get("unsafe_decision", default))`
  unsafe_decision : Fields → String → String
  unfolding text_of
  unsafe_decision unsafe default = elim (get "unsafe_decision" unsafe) [
    | none ↦ default
    | some v ↦ text_of platform v
  ]

  vulnerable_event : AgentRequest → ToolCallPayload → String → AuditEvent
  unfolding audit_event context_ids_of provenance_trust
  vulnerable_event request t reason =
      record (audit_event request "vulnerable_path_simulation" "vulnerable_simulation" true reason
        false) {
          tool_name = some t.tool_name;
          target = t.target;
          risk_level = some "simulated";
          source_context_ids = context_ids_of t.provenance;
          retrieved_context_trust = provenance_trust t.provenance;
          policy_decision = "bypassed";
        }

  vulnerable_turn :
      Clock → AgentRequest → String → Option ToolCallPayload → World → Outcome PipelineResult
  unfolding vulnerable_result vulnerable_event unsafe_decision log_then
      simulate_vulnerable_execution
  vulnerable_turn clock request text none w =
      (ok (vulnerable_result request "complete" "no_tool_call_vulnerable_path" text), w)
  vulnerable_turn clock request text (some t) w =
      let unsafe = simulate_vulnerable_execution platform t in
      log_then clock (vulnerable_event request t (unsafe_decision unsafe "simulated")) w (
        ok (vulnerable_result request "vulnerable_simulation" (unsafe_decision unsafe "None") text))

  vulnerable_generated :
      Clock → AgentRequest → Result LlmAdapterResponse → World → Outcome PipelineResult
  unfolding vulnerable_turn to_model_turn_result
  vulnerable_generated clock request (ok response) w =
      vulnerable_turn clock request response.natural_language response.tool_call w
  vulnerable_generated clock request (raised e) w = (raised e, w)

  -- `run_vulnerable`
  unfoldable pub run_vulnerable :
      ControlPlanePipeline → Clock → AgentRequest → World → Outcome PipelineResult
  unfolding vulnerable_generated
  run_vulnerable pipeline clock request w =
      vulnerable_generated clock request (pipeline.llm_adapter.generate request) w
