-- ===== src/Audit/Event.antt =====
-- src/agent_control_plane/audit_logger.py: `AuditEvent`.
use llm_agent_control_plane.Base.{ℕ, String, Bool, Option, List}
use llm_agent_control_plane.Models.{Items}

-- `AuditEvent`
pub record AuditEvent : Type 0 where
  pub event_type : String
  pub correlation_id : String
  pub request_id : String
  pub user_id : String
  pub session_id : String
  pub tenant_id : String
  pub model : String
  pub tool_name : Option String
  pub target : Option String
  pub risk_level : Option String
  pub source_context_ids : List String
  pub retrieved_context_trust : Option String
  pub policy_decision : String
  pub policy_reason : String
  pub contains_sensitive_data : Bool
  pub human_approval_required : Bool
  pub stage : String
  pub allowed : Bool
  pub approval_id : Option String
  pub approver_id : Option String
  pub approval_decision : Option String
  pub approval_reason : Option String
  pub approval_token_valid : Option Bool
  pub approval_token_failure_reason : Option String
  pub output_filter_decision : Option String
  pub output_finding_count : Option ℕ
  pub output_finding_types : Option (List String)
  pub output_highest_severity : Option String
  pub output_findings_redacted : Option Items
