-- ===== src/Audit/Logger.antt =====
-- src/agent_control_plane/audit_logger.py: `AuditLogger.write`. The file is the list of its lines.
use llm_agent_control_plane.Base.{
  Result, ok, raised, os_error, ℕ, String, Option, none, some, List, [], ◌∷◌, ◌++◌, truthy?,
  if◌then◌else◌, false,
}
use llm_agent_control_plane.Models.{
  Value, Items, null, bool, int, str, arr, obj, end, field, strs, opt_str, opt_bool,
}
use llm_agent_control_plane.Json.{compact_json}
use llm_agent_control_plane.Audit.Event.{AuditEvent}
use llm_agent_control_plane.Audit.Redaction.{redact}

opt_int : Option ℕ → Value
opt_int none = null
opt_int (some n) = int false n

opt_strs : Option (List String) → Value
opt_strs none = null
opt_strs (some ss) = arr (strs ss)

opt_items : Option Items → Value
opt_items none = null
opt_items (some vs) = arr vs

-- `_redact(reason) if reason else None`
redact_reason : Option String → Value
redact_reason none = null
redact_reason (some s) = if truthy? (some s) then str (redact s) else null

-- The dictionary that `write` serialises, with the time stamp.
unfoldable pub audit_record : String → AuditEvent → Value
unfolding opt_int opt_strs opt_items redact_reason
audit_record timestamp e = obj (
    field "event_type" (str e.event_type) (
      field "timestamp" (str timestamp) (
        field "correlation_id" (str e.correlation_id) (
          field "request_id" (str e.request_id) (
            field "user_id" (str e.user_id) (
              field "session_id" (str e.session_id) (
                field "tenant_id" (str e.tenant_id) (
                  field "model" (str e.model) (
                    field "tool_name" (opt_str e.tool_name) (
                      field "target" (opt_str e.target) (
                        field "risk_level" (opt_str e.risk_level) (
                          field "source_context_ids" (arr (strs e.source_context_ids)) (
                            field "retrieved_context_trust" (opt_str e.retrieved_context_trust) (
                              field "policy_decision" (str e.policy_decision) (
                                field "policy_reason" (str (redact e.policy_reason)) (
                                  field "contains_sensitive_data" (bool e.contains_sensitive_data) (
                                    field "human_approval_required" (bool e.human_approval_required)
                                      (field "stage" (str e.stage) (
                                        field "allowed" (bool e.allowed) (
                                          field "approval_id" (opt_str e.approval_id) (
                                            field "approver_id" (opt_str e.approver_id) (
                                              field "approval_decision"
                                                (opt_str e.approval_decision)
                                                (field "approval_reason"
                                                  (redact_reason e.approval_reason)
                                                  (field "approval_token_valid"
                                                    (opt_bool e.approval_token_valid)
                                                    (field "approval_token_failure_reason"
                                                      (opt_str e.approval_token_failure_reason)
                                                      (field "output_filter_decision"
                                                        (opt_str e.output_filter_decision)
                                                        (field "output_finding_count"
                                                          (opt_int e.output_finding_count)
                                                          (field "output_finding_types"
                                                            (opt_strs e.output_finding_types)
                                                            (field "output_highest_severity"
                                                            (opt_str e.output_highest_severity)
                                                            (field "output_findings_redacted"
                                                            (opt_items e.output_findings_redacted)
                                                            end))))))))))))))))))))))))))))))

-- The line that `write` appends.
unfoldable pub audit_line : String → AuditEvent → String
audit_line timestamp e = redact (compact_json (audit_record timestamp e))

-- `AuditLogger.write`; `fault` is what OSError says where the file cannot be opened or appended to,
-- which leaves it as it was.
unfoldable pub write :
    (fault : Option String) → String → AuditEvent → List String → Result (Unit {0}) × List String
write none timestamp e lines = (ok tt, lines ++ audit_line timestamp e ∷ [])
write (some message) timestamp e lines = (raised (os_error message), lines)
