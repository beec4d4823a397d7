-- ===== src/Models/Results.antt =====
-- src/agent_control_plane/models.py: what the policy engine, the broker, the simulator and the
-- pipeline answer.
use llm_agent_control_plane.Base.{String, Bool, true, Option, none}
use llm_agent_control_plane.Models.Enums.{RiskLevel}
use llm_agent_control_plane.Models.Values.{Fields}

-- `PolicyDecision`
pub record PolicyDecision : Type 0 where
  pub allowed : Bool
  pub reason : String
  pub risk_level : Option RiskLevel
  pub requires_human_approval : Bool
  pub external_effect : Bool

-- `BrokerDecision`
pub record BrokerDecision : Type 0 where
  pub allowed : Bool
  pub reason : String
  pub policy_decision : Option PolicyDecision
  pub schema_valid : Bool
  pub approval_id : Option String
  pub approver_id : Option String
  pub approval_decision : Option String
  pub approval_reason : Option String
  pub approval_token_valid : Option Bool
  pub approval_token_failure_reason : Option String

-- `BrokerDecision(allowed=…, reason=…)`, the other fields at the class's defaults.
unfoldable pub broker_decision_of : Bool → String → BrokerDecision
broker_decision_of allowed reason = record {
  allowed = allowed;
  reason = reason;
  policy_decision = none;
  schema_valid = true;
  approval_id = none;
  approver_id = none;
  approval_decision = none;
  approval_reason = none;
  approval_token_valid = none;
  approval_token_failure_reason = none;
}

-- `SimulationResult`
pub record SimulationResult : Type 0 where
  pub success : Bool
  pub message : String
  pub simulated_output : Fields

-- `PipelineResult`
pub record PipelineResult : Type 0 where
  pub request_id : String
  pub path : String
  pub allowed : Bool
  pub stage : String
  pub reason : String
  pub model_text : String
  pub filtered_output : String
  pub tool_executed : Bool
  pub simulation : Option SimulationResult
