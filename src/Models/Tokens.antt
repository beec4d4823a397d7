-- ===== src/Models/Tokens.antt =====
-- src/agent_control_plane/approval_tokens.py: the two records that a request's approval consists of.
use llm_agent_control_plane.Base.{String, Bool, Option, List}

-- `ApprovalRequestFingerprint`
pub record ApprovalRequestFingerprint : Type 0 where
  pub user_id : String
  pub tenant_id : String
  pub tool_name : String
  pub target : Option String
  pub action : String
  pub risk_level : String
  pub source_context_ids : List String
  pub provenance_fingerprint : String
  pub action_fingerprint : String

-- `ApprovalToken`
pub record ApprovalToken : Type 0 where
  pub approval_id : String
  pub approver_id : String
  pub approved_at : String
  pub expires_at : String
  pub one_time_use : Bool
  pub used : Bool
  pub user_id : String
  pub tenant_id : String
  pub tool_name : String
  pub target : Option String
  pub action : String
  pub risk_level : String
  pub source_context_ids : List String
  pub provenance_fingerprint : String
  pub action_fingerprint : String
  pub approval_reason : String
