-- ===== src/Approval/Tokens.antt =====
-- src/agent_control_plane/approval_tokens.py: minting and verifying tokens, and the registry of the
-- one-time tokens that this process has consumed, a set kept as a list.
use llm_agent_control_plane.Base.{
  String, ◌<>◌, Bool, true, false, ◌||◌, none, some, List, [], ◌∷◌, ◌!=◌, contains, string_eq,
  option_eq, list_eq, Verdict, Result, ok, raised, value_error, ◌>>=◌, if◌then◌else◌,
}
use llm_agent_control_plane.Models.{AgentRequest, ToolCallPayload, ApprovalToken, risk_value}
use llm_agent_control_plane.Platform.{
  Platform, DateTime, Seconds, assume_utc, is_after, add_seconds,
}
use llm_agent_control_plane.Policy.{ToolPolicy}
use llm_agent_control_plane.Approval.Fingerprint.{
  sorted_context_ids, compute_provenance_fingerprint, compute_action_fingerprint,
  build_approval_fingerprint,
}

-- `_USED_APPROVAL_IDS`
abbrev pub Registry : Type 0
Registry = List String

-- `clear_used_approval_tokens`
unfoldable pub clear_used_approval_tokens : Registry → Registry
clear_used_approval_tokens used = []

-- `is_approval_token_used`
unfoldable pub is_approval_token_used : String → Registry → Bool
is_approval_token_used approval_id used = contains used approval_id

-- `mark_approval_token_used`
unfoldable pub mark_approval_token_used : String → Registry → Registry
mark_approval_token_used approval_id used =
    if contains used approval_id then used else approval_id ∷ used

module _ (platform : Platform) where
  -- The token that `create_approval_token` returns, given the moment at which it expires.
  unfoldable pub minted_token :
      String
      → String
      → AgentRequest
      → ToolCallPayload
      → ToolPolicy
      → String
      → DateTime
      → DateTime
      → ApprovalToken
  minted_token uuid approver_id request tool_call tool_policy reason now expires =
      let fingerprint =
        build_approval_fingerprint platform request tool_call (risk_value tool_policy.risk_level) in
      record {
        approval_id = "apr-" <> uuid;
        approver_id = approver_id;
        approved_at = platform.isoformat now;
        expires_at = platform.isoformat expires;
        one_time_use = true;
        used = false;
        user_id = fingerprint.user_id;
        tenant_id = fingerprint.tenant_id;
        tool_name = fingerprint.tool_name;
        target = fingerprint.target;
        action = fingerprint.action;
        risk_level = fingerprint.risk_level;
        source_context_ids = fingerprint.source_context_ids;
        provenance_fingerprint = fingerprint.provenance_fingerprint;
        action_fingerprint = fingerprint.action_fingerprint;
        approval_reason = reason;
      }

  -- `create_approval_token`, given the digits of the new UUID and the moment of approval.
  unfoldable pub create_approval_token :
      String
      → String
      → AgentRequest
      → ToolCallPayload
      → ToolPolicy
      → String
      → Seconds
      → DateTime
      → Result ApprovalToken
  create_approval_token uuid approver_id request tool_call tool_policy reason ttl_seconds now = do
    expires ← add_seconds now ttl_seconds
    ok (minted_token uuid approver_id request tool_call tool_policy reason now expires)

  unfoldable pub parse_moment : String → Result DateTime
  parse_moment s = elim (platform.fromisoformat s) [
    | none ↦ raised (value_error ("Invalid isoformat string: " <> platform.repr s))
    | some d ↦ ok d
  ]

  -- `is_approval_token_expired` at the moment `now`
  unfoldable pub is_approval_token_expired : ApprovalToken → DateTime → Result Bool
  is_approval_token_expired token now = do
    expires ← parse_moment token.expires_at
    is_after now (assume_utc expires)

  -- The comparisons of `verify_approval_token`, after the checks of reuse and expiry.
  unfoldable pub verify_binding : ApprovalToken → AgentRequest → ToolCallPayload → String → Verdict
  verify_binding token request tool_call risk_level =
      if token.user_id != request.user_id
      then (false, "approval_token_user_mismatch")
      else if token.tenant_id != request.tenant_id
      then (false, "approval_token_tenant_mismatch")
      else if token.tool_name != tool_call.tool_name
      then (false, "approval_token_tool_mismatch")
      else if token.target != tool_call.target
      then (false, "approval_token_target_mismatch")
      else if token.risk_level != risk_level
      then (false, "approval_token_risk_mismatch")
      else if token.source_context_ids != sorted_context_ids tool_call.provenance
      then (false, "approval_token_context_mismatch")
      else if token.provenance_fingerprint
          != compute_provenance_fingerprint platform tool_call.provenance
      then (false, "approval_token_provenance_mismatch")
      else if token.action_fingerprint
          != compute_action_fingerprint platform request tool_call risk_level
      then (false, "approval_token_action_mismatch")
      else (true, "approval_token_valid")

  -- `verify_approval_token` at the moment `now`, with the registry `used`
  unfoldable pub verify_approval_token :
      ApprovalToken → AgentRequest → ToolCallPayload → String → DateTime → Registry → Result Verdict
  verify_approval_token token request tool_call risk_level now used =
      if token.used || is_approval_token_used token.approval_id used
      then ok (false, "approval_token_reused")
      else do
        expired ← is_approval_token_expired token now
        ok (
            if expired
            then (false, "approval_token_expired")
            else verify_binding token request tool_call risk_level)
