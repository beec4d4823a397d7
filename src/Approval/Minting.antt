-- ===== src/Approval/Minting.antt =====
-- src/agent_control_plane/approval_tokens.py: the life of a freshly minted token.
use llm_agent_control_plane.Base.{
  ℕ, ◌+◌, ◌*◌, ◌≤◌, String, ◌<>◌, true, false, some, ◌≡◌, refl, In, contains_iff, string_eq, arith,
  ok, ltb, if◌then◌else◌,
}
use llm_agent_control_plane.Models.{AgentRequest, ToolCallPayload, ApprovalToken, risk_value}
use llm_agent_control_plane.Platform.{
  Platform, DateTime, aware, forward, add_seconds, assume_utc, is_after, max_micros,
}
use llm_agent_control_plane.Policy.{ToolPolicy}
use llm_agent_control_plane.Approval.Fingerprint.{
  build_approval_fingerprint, compute_action_fingerprint,
}
use llm_agent_control_plane.Approval.Tokens.{
  Registry, minted_token, create_approval_token, verify_approval_token, is_approval_token_used,
}
use llm_agent_control_plane.Approval.Laws.{
  IsBoundTo, IsBoundTo-verify_binding, is_approval_token_expired_of_parsed,
}

module _ (platform : Platform) (uuid approver_id reason : String) (request : AgentRequest)
    (t : ToolCallPayload) (tool_policy : ToolPolicy) where
  minted_token-IsBoundTo :
      (now expires : DateTime)
      → IsBoundTo platform
          (minted_token platform uuid approver_id request t tool_policy reason now expires)
          request
          t
          (risk_value tool_policy.risk_level)
  unfolding minted_token build_approval_fingerprint compute_action_fingerprint
  minted_token-IsBoundTo now expires = record {
    user = refl;
    tenant = refl;
    tool = refl;
    target = refl;
    risk = refl;
    context = refl;
    provenance = refl;
    action = refl;
  }

  -- A token minted at a with a lifetime of s seconds verifies for its request up to and including
  -- the moment of its expiry, and is refused as expired after it, if its identifier has not been
  -- consumed, the expiry lies within the calendar and its text parses back.
  pub verify-create :
      (a s b : ℕ) (used : Registry)
      → a + s * 1000000 ≤ max_micros
      → platform.fromisoformat (platform.isoformat (aware (a + s * 1000000)))
        ≡ some (aware (a + s * 1000000))
      → ¬ In ("apr-" <> uuid) used
      → (token : ApprovalToken) × (create_approval_token platform uuid approver_id request t
            tool_policy reason
            (forward s)
            (aware a)
          ≡ ok token)
        × (verify_approval_token platform token request t
              (risk_value tool_policy.risk_level)
              (aware b)
              used
            ≡ ok (
                if ltb (a + s * 1000000) b
                then (false, "approval_token_expired")
                else (true, "approval_token_valid")))
  unfolding create_approval_token add_seconds verify_approval_token is_approval_token_used
      minted_token is_after assume_utc
  verify-create a s b used small parses unused =
      let expires = aware (a + s * 1000000) in
      let token =
        minted_token platform uuid approver_id request t tool_policy reason (aware a) expires in
      (
        token,
        ground arith,
        ground (
          arith,
          contains_iff used ("apr-" <> uuid),
          is_approval_token_expired_of_parsed platform token (aware b) expires
              (ltb (a + s * 1000000) b) parses refl,
          IsBoundTo-verify_binding platform token request t (risk_value tool_policy.risk_level)
              (minted_token-IsBoundTo (aware a) expires),
        ),
      )
