-- ===== src/Agent/Adapter.antt =====
-- src/agent_control_plane/llm_adapter.py: the adapters, which give untrusted candidate output.
use llm_agent_control_plane.Base.{
  ℕ, String, ◌<>◌, Bool, true, Option, none, some, Result, ok, raised, llm_adapter_error, truthy?,
  if◌then◌else◌,
}
use llm_agent_control_plane.Models.{AgentRequest, ModelTurnResult, ToolCallPayload}
use llm_agent_control_plane.Platform.{Platform}
use llm_agent_control_plane.Agent.Core.{run_simulated_agent}

-- `LLMAdapterMode`
pub data LlmAdapterMode : Type 0 where
  simulated disabled_external : LlmAdapterMode

-- `LLMAdapterMetadata`
pub record LlmAdapterMetadata : Type 0 where
  pub provider_name : String
  pub model_name : String
  pub is_simulated : Bool
  pub latency_ms : ℕ

-- `LLMAdapterResponse`
pub record LlmAdapterResponse : Type 0 where
  pub natural_language : String
  pub tool_call : Option ToolCallPayload
  pub metadata : LlmAdapterMetadata

-- The protocol `LLMAdapter`: whatever has a method `generate`.
pub record LlmAdapter : Type 0 where
  pub generate : AgentRequest → Result LlmAdapterResponse

-- `SimulatedLLMAdapter`, given the latency that its clock measures.
unfoldable pub simulated_llm_adapter : Platform → ℕ → LlmAdapter
simulated_llm_adapter platform elapsed_ms = record {
  generate = λ request.
      let turn = run_simulated_agent platform request in
      ok (record {
        natural_language = turn.natural_language;
        tool_call = turn.tool_call;
        metadata = record {
          provider_name = "simulated";
          model_name = request.model;
          is_simulated = true;
          latency_ms = elapsed_ms;
        };
      });
}

-- `DisabledExternalLLMAdapter`; its model name is stored and never read.
unfoldable pub disabled_external_llm_adapter : Platform → String → LlmAdapter
disabled_external_llm_adapter platform provider_name = record {
  generate = λ request. raised (
      llm_adapter_error (
        "external LLM adapter is disabled (provider="
        <> (platform.repr provider_name <> "); no live provider implementation is available")));
}

-- `to_model_turn_result`
unfoldable pub to_model_turn_result : LlmAdapterResponse → ModelTurnResult
to_model_turn_result response = record {
  natural_language = response.natural_language;
  tool_call = response.tool_call;
}

-- `provider_name or "external"`
or_default : Option String → String → String
or_default none default = default
or_default (some s) default = if truthy? (some s) then s else default

-- `create_llm_adapter`
unfoldable pub create_llm_adapter : Platform → ℕ → LlmAdapterMode → Option String → LlmAdapter
unfolding simulated_llm_adapter disabled_external_llm_adapter or_default
create_llm_adapter platform elapsed_ms disabled_external provider_name =
    disabled_external_llm_adapter platform (or_default provider_name "external")
create_llm_adapter platform elapsed_ms simulated provider_name =
    simulated_llm_adapter platform elapsed_ms
