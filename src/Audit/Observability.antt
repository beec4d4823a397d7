-- ===== src/Audit/Observability.antt =====
-- src/agent_control_plane/observability.py: correlation identifiers and operational events.
use llm_agent_control_plane.Base.{
  Result, ℕ, String, false, not, Option, none, some, List, [], ltb, if◌then◌else◌, truthy, strip,
  length, take,
}
use llm_agent_control_plane.Models.{AgentRequest}
use llm_agent_control_plane.Audit.Logger.{write}

-- `MAX_CORRELATION_ID_LEN`
abbrev pub max_correlation_id_len : ℕ
max_correlation_id_len = 128

unfoldable pub bounded : String → String
bounded trimmed =
    if ltb max_correlation_id_len (length trimmed)
    then take max_correlation_id_len trimmed
    else trimmed

-- `normalize_correlation_id`
unfoldable pub normalize_correlation_id : Option String → String → String
unfolding bounded
normalize_correlation_id none fallback = fallback
normalize_correlation_id (some value) fallback =
    if not (truthy (strip value)) then fallback else bounded (strip value)

-- `resolve_correlation_id`
unfoldable pub resolve_correlation_id : AgentRequest → String
resolve_correlation_id request = normalize_correlation_id request.correlation_id request.request_id

-- `write_operational_audit` with the defaults of its optional arguments
unfoldable pub write_operational_audit :
    (fault : Option String)
    → String
    → String
    → String
    → String
    → String
    → String
    → List String
    → Result (Unit {0}) × List String
write_operational_audit fault timestamp event_type correlation_id request_id stage policy_reason
      lines =
    write fault timestamp
      (record {
        event_type = event_type;
        correlation_id = correlation_id;
        request_id = request_id;
        user_id = "unknown";
        session_id = "unknown";
        tenant_id = "unknown";
        model = "n/a";
        tool_name = none;
        target = none;
        risk_level = none;
        source_context_ids = [];
        retrieved_context_trust = none;
        policy_decision = "deny";
        policy_reason = policy_reason;
        contains_sensitive_data = false;
        human_approval_required = false;
        stage = stage;
        allowed = false;
        approval_id = none;
        approver_id = none;
        approval_decision = none;
        approval_reason = none;
        approval_token_valid = none;
        approval_token_failure_reason = none;
        output_filter_decision = none;
        output_finding_count = none;
        output_finding_types = none;
        output_highest_severity = none;
        output_findings_redacted = none;
      })
      lines
