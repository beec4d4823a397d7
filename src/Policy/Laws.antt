-- ===== src/Policy/Laws.antt =====
-- src/agent_control_plane/policy_engine.py and provenance.py: what a policy permits, apart from the
-- order of the checks.
use llm_agent_control_plane.Base.{
  true, false, none, some, ◌≡◌, refl, ◌≢◌, ◌↔◌, ◌⊎◌, inl, inr, In, contains_iff, string_eq, arith,
  Option-cases,
}
use llm_agent_control_plane.Models.{
  AgentRequest, ToolCallPayload, Provenance, model, system, internal_reviewed, trusted,
}
use llm_agent_control_plane.Policy.Types.{ToolPolicy, PolicyDocument, find_tool}
use llm_agent_control_plane.Policy.Provenance.{validate_provenance_for_tool}
use llm_agent_control_plane.Policy.Engine.{evaluate_policy}

-- An origin that may support a request for a tool: trusted, and the model's, the system's, or
-- reviewed content for a tool without external or destructive effect.
abbrev pub MayAuthorize : ToolPolicy → Provenance → Type 0
MayAuthorize tool_policy p =
    (p.trust ≡ trusted)
    × ((p.source ≡ model)
        ⊎ (p.source ≡ system)
        ⊎ ((p.source ≡ internal_reviewed)
            × (tool_policy.external_effect ≡ false)
            × (tool_policy.destructive ≡ false)))

pub record Permits (policy : PolicyDocument) (request : AgentRequest) (t : ToolCallPayload)
    : Type 0 where
  pub tool_policy : ToolPolicy
  pub listed : find_tool t.tool_name policy.tools ≡ some tool_policy
  pub enabled : tool_policy.enabled ≡ true
  pub role : In request.role tool_policy.allowed_roles
  pub tenant : policy.tenant_isolation ≡ "strict" → t.target ≡ some request.tenant_id
  pub origin : Provenance
  pub attached : t.provenance ≡ some origin
  pub authorizing : MayAuthorize tool_policy origin
  pub closed : policy.default_decision ≢ "allow"

pub validate_provenance_for_tool_iff :
    (tool_policy : ToolPolicy) (p : Provenance)
    → ((validate_provenance_for_tool tool_policy (some p)).0 ≡ true) ↔ MayAuthorize tool_policy p
unfolding validate_provenance_for_tool
validate_provenance_for_tool_iff tool_policy p = ground arith

validate_provenance_for_tool-none :
    (tool_policy : ToolPolicy) → (validate_provenance_for_tool tool_policy none).0 ≡ false
unfolding validate_provenance_for_tool
validate_provenance_for_tool-none tool_policy = refl

evaluate_policy-Permits :
    (policy : PolicyDocument) (request : AgentRequest) (t : ToolCallPayload)
    → (evaluate_policy policy request t).allowed ≡ true
    → Permits policy request t
unfolding evaluate_policy
evaluate_policy-Permits policy request t h =
    elim (Option-cases (find_tool t.tool_name policy.tools)) [
      | inl missing ↦ absurd (ground arith)
      | inr (tp, listed) ↦ elim (Option-cases t.provenance) [
        | inl bare ↦ absurd (ground (arith, validate_provenance_for_tool-none tp))
        | inr (p, attached) ↦ record {
          tool_policy = tp;
          listed = listed;
          enabled = ground arith;
          role = (contains_iff tp.allowed_roles request.role).0 (ground arith);
          tenant = ground arith;
          origin = p;
          attached = attached;
          authorizing = (validate_provenance_for_tool_iff tp p).0 (ground arith);
          closed = ground arith;
        }
      ]
    ]

Permits-evaluate_policy :
    (policy : PolicyDocument) (request : AgentRequest) (t : ToolCallPayload)
    → Permits policy request t
    → (evaluate_policy policy request t).allowed ≡ true
unfolding evaluate_policy
Permits-evaluate_policy policy request t p = ground (
  arith,
  (validate_provenance_for_tool_iff p.tool_policy p.origin).1 p.authorizing,
  p.listed,
  p.attached,
  p.enabled,
  (contains_iff p.tool_policy.allowed_roles request.role).1 p.role,
  p.tenant,
  p.closed,
)

-- The policy engine allows a tool call exactly if the policy lists the tool, the tool is enabled
-- and open to the request's role, the target is the request's tenant where isolation is strict, the
-- call carries provenance that may authorize the tool, and the default decision is not "allow".
pub evaluate_policy_iff :
    (policy : PolicyDocument) (request : AgentRequest) (t : ToolCallPayload)
    → ((evaluate_policy policy request t).allowed ≡ true) ↔ Permits policy request t
evaluate_policy_iff policy request t =
    (evaluate_policy-Permits policy request t, Permits-evaluate_policy policy request t)
