-- ===== src/Broker.antt =====
-- src/agent_control_plane/tool_broker.py: the authority boundary between model output and execution.
pub mod Authority
pub mod Hardening
use llm_agent_control_plane.Base.{
  String, Bool, true, false, not, Option, none, some, Result, ok, raised, key_error, ◌>>=◌,
  if◌then◌else◌,
}
use llm_agent_control_plane.Models.{
  AgentRequest, ToolCallPayload, BrokerDecision, PolicyDecision, broker_decision_of,
}
use llm_agent_control_plane.Platform.{Platform, Bytes, DateTime}
use llm_agent_control_plane.Policy.{ToolPolicy, PolicyDocument, find_tool, evaluate_policy}
use llm_agent_control_plane.Integrity.{lab_demo_hmac_key, verify_provenance_integrity}
use llm_agent_control_plane.Schemas.{validate_tool_call_payload}
use llm_agent_control_plane.Approval.{Registry, ApprovalGateResult, evaluate_approval_gate}

-- The keyword arguments of `broker_tool_request`.
pub record BrokerOptions : Type 0 where
  pub require_provenance_signature : Bool
  pub provenance_hmac_key : Option Bytes
  pub require_approval_token : Bool

-- `provenance_hmac_key if provenance_hmac_key is not None else LAB_DEMO_HMAC_KEY`
unfoldable pub hmac_key_of : Option Bytes → Bytes
hmac_key_of none = lab_demo_hmac_key
hmac_key_of (some key) = key

-- `policy.tools[name]`
unfoldable pub tool_at : String → PolicyDocument → Result ToolPolicy
tool_at name policy = elim (find_tool name policy.tools) [
  | none ↦ raised (key_error name)
  | some tool_policy ↦ ok tool_policy
]

-- The decision once the approval gate has answered.
unfoldable pub gated_decision : PolicyDecision → ApprovalGateResult → BrokerDecision
unfolding broker_decision_of
gated_decision policy_decision approval =
    if not approval.allowed
    then record (broker_decision_of false approval.reason) {
      policy_decision = some policy_decision;
      approval_id = approval.approval_id;
      approver_id = approval.approver_id;
      approval_decision = approval.approval_decision;
      approval_reason = approval.approval_reason;
      approval_token_valid = approval.approval_token_valid;
      approval_token_failure_reason = approval.approval_token_failure_reason;
    }
    else record (broker_decision_of true policy_decision.reason) {
      policy_decision = some policy_decision;
      approval_id = approval.approval_id;
      approver_id = approval.approver_id;
      approval_decision = approval.approval_decision;
      approval_reason = approval.approval_reason;
      approval_token_valid = approval.approval_token_valid;
    }

module _ (platform : Platform) (options : BrokerOptions) where
  -- The part after the integrity check.
  unfoldable pub authorize_tool :
      AgentRequest → PolicyDocument → ToolCallPayload → DateTime → Registry → Result BrokerDecision
  unfolding broker_decision_of
  authorize_tool request policy tool_call now used =
      let policy_decision = evaluate_policy policy request tool_call in
      if not policy_decision.allowed
      then ok (record (broker_decision_of false policy_decision.reason) {
        policy_decision = some policy_decision;
      })
      else do
        tool_policy ← tool_at tool_call.tool_name policy
        approval ←
            evaluate_approval_gate platform request tool_policy tool_call
              options.require_approval_token now used
        ok (gated_decision policy_decision approval)

  -- `broker_tool_request` at the moment `now`, with the registry `used`
  unfoldable pub broker_tool_request :
      AgentRequest → PolicyDocument → ToolCallPayload → DateTime → Registry → Result BrokerDecision
  unfolding broker_decision_of
  broker_tool_request request policy tool_call now used =
      let schema = validate_tool_call_payload platform tool_call in
      if not schema.0
      then ok (record (broker_decision_of false schema.1) { schema_valid = false })
      else do
        integrity ←
            verify_provenance_integrity platform tool_call.provenance
              (hmac_key_of options.provenance_hmac_key) options.require_provenance_signature
        if not integrity.0
            then ok (broker_decision_of false integrity.1)
            else authorize_tool request policy tool_call now used
