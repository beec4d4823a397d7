-- ===== src/Policy/Engine.antt =====
-- src/agent_control_plane/policy_engine.py: `evaluate_policy`.
use llm_agent_control_plane.Base.{
  String, Bool, true, false, ◌&&◌, not, none, some, ◌==◌, ◌!=◌, contains, string_eq, option_eq,
  if◌then◌else◌,
}
use llm_agent_control_plane.Models.{AgentRequest, ToolCallPayload, PolicyDecision}
use llm_agent_control_plane.Policy.Types.{ToolPolicy, PolicyDocument, find_tool}
use llm_agent_control_plane.Policy.Provenance.{validate_provenance_for_tool}

-- A decision about a tool that the policy knows, with the metadata of its entry.
decided : ToolPolicy → Bool → String → PolicyDecision
decided tool_policy allowed reason = record {
  allowed = allowed;
  reason = reason;
  risk_level = some tool_policy.risk_level;
  requires_human_approval = tool_policy.requires_human_approval;
  external_effect = tool_policy.external_effect;
}

-- The checks after the lookup of the tool.
evaluate_tool : PolicyDocument → ToolPolicy → AgentRequest → ToolCallPayload → PolicyDecision
unfolding decided
evaluate_tool policy tool_policy request tool_call =
    let default_deny = policy.default_decision != "allow" in
    let provenance = validate_provenance_for_tool tool_policy tool_call.provenance in
    if not tool_policy.enabled
    then decided tool_policy false "tool_disabled_by_policy"
    else if not (contains tool_policy.allowed_roles request.role)
    then decided tool_policy false "role_not_permitted_for_tool"
    else if policy.tenant_isolation == "strict" && tool_call.target != some request.tenant_id
    then decided tool_policy false "cross_tenant_target_denied"
    else if not provenance.0
    then decided tool_policy false provenance.1
    else if default_deny
    then decided tool_policy true "explicit_allow_after_policy_checks"
    else record {
      allowed = false;
      reason = "default_deny_policy";
      risk_level = some tool_policy.risk_level;
      requires_human_approval = false;
      external_effect = false;
    }

unfoldable pub evaluate_policy : PolicyDocument → AgentRequest → ToolCallPayload → PolicyDecision
unfolding evaluate_tool
evaluate_policy policy request tool_call = elim (find_tool tool_call.tool_name policy.tools) [
  | none ↦ record {
    allowed = false;
    reason = "unknown_tool_denied_by_policy";
    risk_level = none;
    requires_human_approval = false;
    external_effect = false;
  }
  | some tool_policy ↦ evaluate_tool policy tool_policy request tool_call
]
