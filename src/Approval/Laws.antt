-- ===== src/Approval/Laws.antt =====
-- What a verified approval token and an open approval gate mean, apart from the order of the checks.
use llm_agent_control_plane.Base.{
  String, Bool, true, false, some, ◌≡◌, refl, ◌↔◌, inl, inr, In, contains_iff, string_eq, arith,
  Option-cases, ok, Verdict,
}
use llm_agent_control_plane.Models.{AgentRequest, ToolCallPayload, ApprovalToken}
use llm_agent_control_plane.Platform.{Platform, DateTime, assume_utc, is_after}
use llm_agent_control_plane.Approval.Fingerprint.{
  sorted_context_ids, compute_provenance_fingerprint, compute_action_fingerprint,
}
use llm_agent_control_plane.Approval.Tokens.{
  Registry, parse_moment, verify_binding, verify_approval_token, is_approval_token_expired,
  is_approval_token_used,
}

-- The token was made for this user, tenant, tool, target, risk and provenance, and its
-- fingerprints are those of the request at hand.
pub record IsBoundTo (platform : Platform) (token : ApprovalToken) (request : AgentRequest)
    (t : ToolCallPayload) (risk_level : String) : Type 0 where
  pub user : token.user_id ≡ request.user_id
  pub tenant : token.tenant_id ≡ request.tenant_id
  pub tool : token.tool_name ≡ t.tool_name
  pub target : token.target ≡ t.target
  pub risk : token.risk_level ≡ risk_level
  pub context : token.source_context_ids ≡ sorted_context_ids t.provenance
  pub provenance :
      token.provenance_fingerprint ≡ compute_provenance_fingerprint platform t.provenance
  pub action : token.action_fingerprint ≡ compute_action_fingerprint platform request t risk_level

-- A token that may be used now: not marked, not consumed, parsed and not expired.
pub record IsFresh (platform : Platform) (token : ApprovalToken) (now : DateTime) (used : Registry)
    : Type 0 where
  pub unmarked : token.used ≡ false
  pub unused : ¬ In token.approval_id used
  pub expires : DateTime
  pub parsed : platform.fromisoformat token.expires_at ≡ some expires
  pub in_time : is_after now (assume_utc expires) ≡ ok false

module _ (platform : Platform) (token : ApprovalToken) (request : AgentRequest)
    (t : ToolCallPayload) (risk_level : String) where
  verify_binding-IsBoundTo :
      (verify_binding platform token request t risk_level).0 ≡ true
      → IsBoundTo platform token request t risk_level
  unfolding verify_binding
  verify_binding-IsBoundTo h = ground arith

  pub IsBoundTo-verify_binding :
      IsBoundTo platform token request t risk_level
      → verify_binding platform token request t risk_level ≡ (true, "approval_token_valid")
  unfolding verify_binding
  IsBoundTo-verify_binding h = ground arith

module _ (platform : Platform) (token : ApprovalToken) (now : DateTime) where
  is_approval_token_expired-eq-ok :
      (b : Bool)
      → is_approval_token_expired platform token now ≡ ok b
      → (d : DateTime) × (platform.fromisoformat token.expires_at ≡ some d)
        × (is_after now (assume_utc d) ≡ ok b)
  unfolding is_approval_token_expired parse_moment
  is_approval_token_expired-eq-ok b h =
      elim (Option-cases (platform.fromisoformat token.expires_at)) [
        | inl bad ↦ absurd (ground arith)
        | inr (d, parsed) ↦ (d, parsed, ground arith)
      ]

  pub is_approval_token_expired_of_parsed :
      (d : DateTime) (b : Bool)
      → platform.fromisoformat token.expires_at ≡ some d
      → is_after now (assume_utc d) ≡ ok b
      → is_approval_token_expired platform token now ≡ ok b
  unfolding is_approval_token_expired parse_moment
  is_approval_token_expired_of_parsed d b parsed after = ground arith

  pub verify-IsFresh :
      (request : AgentRequest) (t : ToolCallPayload) (risk_level : String) (used : Registry)
      {v : Verdict}
      → verify_approval_token platform token request t risk_level now used ≡ ok v
      → v.0 ≡ true
      → IsFresh platform token now used × IsBoundTo platform token request t risk_level
  unfolding verify_approval_token is_approval_token_used
  verify-IsFresh request t risk_level used h good =
      let (d, parsed, in_time) = is_approval_token_expired-eq-ok false (ground arith) in
      (
        record {
          unmarked = ground arith;
          unused = λ m. ground (arith, (contains_iff used token.approval_id).1 m);
          expires = d;
          parsed = parsed;
          in_time = in_time;
        },
        verify_binding-IsBoundTo platform token request t risk_level (ground arith),
      )

-- A token verifies exactly if it is fresh and bound to the request, and then for the reason
-- "approval_token_valid".
pub verify_approval_token_iff :
    (platform : Platform) (token : ApprovalToken) (request : AgentRequest) (t : ToolCallPayload)
    (risk_level : String) (now : DateTime) (used : Registry)
    → (verify_approval_token platform token request t risk_level now used
        ≡ ok (true, "approval_token_valid"))
      ↔ (IsFresh platform token now used × IsBoundTo platform token request t risk_level)
unfolding verify_approval_token is_approval_token_used
verify_approval_token_iff platform token request t risk_level now used = (
  λ h. verify-IsFresh platform token now request t risk_level used h refl,
  λ (fresh, bound). ground (
    arith,
    contains_iff used token.approval_id,
    fresh.unmarked,
    fresh.unused,
    is_approval_token_expired_of_parsed platform token now fresh.expires false fresh.parsed
        fresh.in_time,
    IsBoundTo-verify_binding platform token request t risk_level bound,
  ),
)
