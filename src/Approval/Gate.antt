-- ===== src/Approval/Gate.antt =====
-- src/agent_control_plane/approval_gate.py
use llm_agent_control_plane.Base.{
  String, Bool, true, false, not, ◌||◌, Option, none, some, Verdict, Result, ok, ◌>>=◌,
  if◌then◌else◌,
}
use llm_agent_control_plane.Models.{AgentRequest, ToolCallPayload, ApprovalToken, risk_value}
use llm_agent_control_plane.Platform.{Platform, DateTime}
use llm_agent_control_plane.Policy.{ToolPolicy}
use llm_agent_control_plane.Approval.Tokens.{Registry, verify_approval_token}

-- `ApprovalGateResult`
pub record ApprovalGateResult : Type 0 where
  pub allowed : Bool
  pub reason : String
  pub approval_required : Bool
  pub approval_id : Option String
  pub approver_id : Option String
  pub approval_decision : Option String
  pub approval_reason : Option String
  pub approval_token_valid : Option Bool
  pub approval_token_failure_reason : Option String

-- The result's fields with the class's defaults.
gate_result : Bool → String → Bool → ApprovalGateResult
gate_result allowed reason approval_required = record {
  allowed = allowed;
  reason = reason;
  approval_required = approval_required;
  approval_id = none;
  approver_id = none;
  approval_decision = none;
  approval_reason = none;
  approval_token_valid = none;
  approval_token_failure_reason = none;
}

-- A denial with no token at hand.
denied : String → ApprovalGateResult
unfolding gate_result
denied reason = record (gate_result false reason true) {
  approval_decision = some "denied";
  approval_token_valid = some false;
  approval_token_failure_reason = some reason;
}

-- The result for a token, from what its verification said.
unfoldable pub token_result : ApprovalToken → Verdict → ApprovalGateResult
unfolding gate_result
token_result token (false, reason) = record (gate_result false reason true) {
  approval_id = some token.approval_id;
  approver_id = some token.approver_id;
  approval_decision = some "denied";
  approval_reason = some token.approval_reason;
  approval_token_valid = some false;
  approval_token_failure_reason = some reason;
}
token_result token (true, reason) = record (gate_result true "approval_token_granted" true) {
  approval_id = some token.approval_id;
  approver_id = some token.approver_id;
  approval_decision = some "granted";
  approval_reason = some token.approval_reason;
  approval_token_valid = some true;
}

-- The result without a token.
unfoldable pub human_result : AgentRequest → ToolPolicy → ApprovalGateResult
unfolding gate_result denied
human_result request tool_policy =
    if not request.human_approval
    then if tool_policy.external_effect || tool_policy.destructive
      then denied "human_approval_required_for_high_impact_action"
      else denied "human_approval_required_by_policy"
    else record (gate_result true "human_approval_granted" true) {
      approval_decision = some "granted";
    }

-- The result where no approval is needed.
unfoldable pub not_required : ApprovalGateResult
unfolding gate_result
not_required = record (gate_result true "approval_not_required" false) {
  approval_decision = some "not_required";
}

-- `approval_required`
unfoldable pub needs_approval : ToolPolicy → Bool
needs_approval tool_policy =
    tool_policy.requires_human_approval || tool_policy.external_effect || tool_policy.destructive

module _ (platform : Platform) where
  unfoldable pub required_result :
      Option ApprovalToken
      → AgentRequest
      → ToolPolicy
      → ToolCallPayload
      → Bool
      → DateTime
      → Registry
      → Result ApprovalGateResult
  unfolding denied token_result human_result
  required_result none request tool_policy tool_call require_token now used =
      ok (
        if require_token then denied "approval_token_missing" else human_result request tool_policy)
  required_result (some token) request tool_policy tool_call require_token now used = do
    verdict ←
        verify_approval_token platform token request tool_call (risk_value tool_policy.risk_level)
          now used
    ok (token_result token verdict)

  -- `evaluate_approval_gate` at the moment `now`, with the registry `used`
  unfoldable pub evaluate_approval_gate :
      AgentRequest
      → ToolPolicy
      → ToolCallPayload
      → Bool
      → DateTime
      → Registry
      → Result ApprovalGateResult
  unfolding needs_approval not_required
  evaluate_approval_gate request tool_policy tool_call require_token now used =
      if not (needs_approval tool_policy)
      then ok not_required
      else required_result request.approval_token request tool_policy tool_call require_token now
          used
