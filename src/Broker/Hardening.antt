-- ===== src/Broker/Hardening.antt =====
-- src/agent_control_plane/tool_broker.py: the broker under stricter and weaker options.
use llm_agent_control_plane.Base.{Bool, true, ◌≡◌, inl, inr, arith}
use llm_agent_control_plane.Models.{AgentRequest, ToolCallPayload}
use llm_agent_control_plane.Platform.{Platform, DateTime}
use llm_agent_control_plane.Policy.{PolicyDocument, ToolPolicy}
use llm_agent_control_plane.Approval.{Registry}
use llm_agent_control_plane.Approval.GateLaws.{IsApproved}
use llm_agent_control_plane.Broker.{BrokerOptions}
use llm_agent_control_plane.Broker.Authority.{Allows, broker_tool_request_iff}

-- The same key, and every switch of the weaker options is on in the stricter ones.
pub record IsWeaker (weak strict : BrokerOptions) : Type 0 where
  pub same_key : weak.provenance_hmac_key ≡ strict.provenance_hmac_key
  pub signature :
      weak.require_provenance_signature ≡ true → strict.require_provenance_signature ≡ true
  pub token : weak.require_approval_token ≡ true → strict.require_approval_token ≡ true

module _ (platform : Platform) (weak strict : BrokerOptions) (request : AgentRequest)
    (policy : PolicyDocument) (t : ToolCallPayload) (now : DateTime) (used : Registry) where
  IsApproved-weaken :
      (a b : Bool) (tp : ToolPolicy)
      → (a ≡ true → b ≡ true)
      → IsApproved platform request tp t b now used
      → IsApproved platform request tp t a now used
  IsApproved-weaken a b tp h (inl n) = inl n
  IsApproved-weaken a b tp h (inr (inl token)) = inr (inl token)
  IsApproved-weaken a b tp h (inr (inr (no_token, lax, human))) =
      inr (inr (no_token, ground arith, human))

  -- A request that the broker allows under stricter options it also allows under weaker ones with
  -- the same key.
  pub Allows-weaken :
      IsWeaker weak strict
      → Allows platform strict request policy t now used
      → Allows platform weak request policy t now used
  Allows-weaken h x =
      let a = (broker_tool_request_iff platform strict request policy t now used).0 x in
      (broker_tool_request_iff platform weak request policy t now used).1 (record {
        shaped = a.shaped;
        permitted = a.permitted;
        intact = λ on. rw h.same_key (a.intact (h.signature on));
        approved =
            IsApproved-weaken weak.require_approval_token strict.require_approval_token
              a.permitted.tool_policy h.token a.approved;
      })
