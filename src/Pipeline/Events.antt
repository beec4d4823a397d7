-- ===== src/Pipeline/Events.antt =====
-- src/agent_control_plane/pipeline.py: the audit events of a turn, and what they are computed from.
use llm_agent_control_plane.Base.{
  String, Bool, true, false, ◌||◌, Option, none, some, List, [], ◌==◌, ◌!=◌, string_eq,
  if◌then◌else◌, starts_with, has_substring,
}
use llm_agent_control_plane.Models.{
  AgentRequest, ToolCallPayload, Provenance, PolicyDecision, BrokerDecision, ApprovalToken,
  risk_value, trust_value, RiskLevel,
}
use llm_agent_control_plane.Filter.{OutputFilterResult, findings_for_audit}
use llm_agent_control_plane.Audit.{AuditEvent, resolve_correlation_id}

-- `_blocked_event_type`
unfoldable pub blocked_event_type : String → String
blocked_event_type reason =
    if reason == "cross_tenant_target_denied"
    then "cross_tenant_blocked"
    else if starts_with reason "approval_token"
    then "approval_denied"
    else if has_substring reason "human_approval_required" || reason == "approval_token_missing"
    then "approval_denied"
    else if reason == "missing_provenance_denied"
    then "provenance_denied"
    else if has_substring reason "cannot_authorize" || has_substring reason "provenance"
    then "provenance_denied"
    else "tool_blocked"

-- `bool(policy_decision and policy_decision.requires_human_approval)`
policy_requires : Option PolicyDecision → Bool
policy_requires none = false
policy_requires (some d) = d.requires_human_approval

-- `_approval_required_from_reason`
unfoldable pub approval_required_from_reason : String → Option PolicyDecision → Bool
unfolding policy_requires
approval_required_from_reason reason d =
    if starts_with reason "approval_token"
    then true
    else has_substring reason "human_approval_required" || policy_requires d

-- `_approval_required_from_broker`
unfoldable pub approval_required_from_broker : BrokerDecision → Option PolicyDecision → Bool
unfolding policy_requires
approval_required_from_broker b d = elim b.approval_decision [
  | none ↦ policy_requires d
  | some decision ↦ decision != "not_required"
]

risk_text : Option RiskLevel → Option String
unfolding risk_value
risk_text none = none
risk_text (some r) = some (risk_value r)

-- `_risk_level_str`
unfoldable pub risk_level_str : Option PolicyDecision → Option String
unfolding risk_text
risk_level_str none = none
risk_level_str (some d) = risk_text d.risk_level

-- `_context_ids`
unfoldable pub context_ids_of : Option Provenance → List String
context_ids_of none = []
context_ids_of (some p) = p.context_ids

-- `_provenance_trust`
unfoldable pub provenance_trust : Option Provenance → Option String
unfolding trust_value
provenance_trust none = none
provenance_trust (some p) = some (trust_value p.trust)

-- `_audit_event`, the optional arguments at their defaults
unfoldable pub audit_event : AgentRequest → String → String → Bool → String → Bool → AuditEvent
audit_event request event_type stage allowed policy_reason contains_sensitive = record {
  event_type = event_type;
  correlation_id = resolve_correlation_id request;
  request_id = request.request_id;
  user_id = request.user_id;
  session_id = request.session_id;
  tenant_id = request.tenant_id;
  model = request.model;
  tool_name = none;
  target = none;
  risk_level = none;
  source_context_ids = [];
  retrieved_context_trust = none;
  policy_decision = "deny";
  policy_reason = policy_reason;
  contains_sensitive_data = contains_sensitive;
  human_approval_required = false;
  stage = stage;
  allowed = allowed;
  approval_id = none;
  approver_id = none;
  approval_decision = none;
  approval_reason = none;
  approval_token_valid = none;
  approval_token_failure_reason = none;
  output_filter_decision = none;
  output_finding_count = none;
  output_finding_types = none;
  output_highest_severity = none;
  output_findings_redacted = none;
}

-- The event of a turn whose text the output filter blocks.
unfoldable pub filter_event : AgentRequest → OutputFilterResult → AuditEvent
unfolding audit_event
filter_event request r =
    record (audit_event request "output_filter_blocked" "output_filter" false r.reason true) {
      output_filter_decision = some r.output_filter_decision;
      output_finding_count = some r.finding_count;
      output_finding_types = some r.finding_types;
      output_highest_severity = r.highest_severity;
      output_findings_redacted = some (findings_for_audit r.findings);
    }

-- The approval fields of `_audit_event_for_tool`.
unfoldable pub with_approval :
    Option BrokerDecision → Option ApprovalToken → AuditEvent → AuditEvent
with_approval (some b) token e = record e {
  approval_id = b.approval_id;
  approver_id = b.approver_id;
  approval_decision = b.approval_decision;
  approval_reason = b.approval_reason;
  approval_token_valid = b.approval_token_valid;
  approval_token_failure_reason = b.approval_token_failure_reason;
}
with_approval none (some token) e = record e {
  approval_id = some token.approval_id;
  approver_id = some token.approver_id;
  approval_reason = some token.approval_reason;
}
with_approval none none e = e

-- The other fields of `_audit_event_for_tool`.
unfoldable pub tool_event :
    AgentRequest
    → ToolCallPayload
    → String
    → String
    → Bool
    → String
    → Bool
    → Option PolicyDecision
    → AuditEvent
unfolding audit_event risk_level_str context_ids_of provenance_trust
tool_event request t event_type stage allowed policy_reason human_approval d =
    record (audit_event request event_type stage allowed policy_reason false) {
      tool_name = some t.tool_name;
      target = t.target;
      risk_level = risk_level_str d;
      source_context_ids = context_ids_of t.provenance;
      retrieved_context_trust = provenance_trust t.provenance;
      policy_decision = if allowed then "allow" else "deny";
      human_approval_required = human_approval;
    }

-- `_audit_event_for_tool`
unfoldable pub audit_event_for_tool :
    AgentRequest
    → ToolCallPayload
    → String
    → String
    → Bool
    → String
    → Bool
    → Option PolicyDecision
    → Option BrokerDecision
    → AuditEvent
audit_event_for_tool request t event_type stage allowed policy_reason human_approval d b =
    with_approval b request.approval_token
      (tool_event request t event_type stage allowed policy_reason human_approval d)
