-- ===== src/Broker/Authority.antt =====
-- src/agent_control_plane/tool_broker.py: what an authorized tool request is, put together from what the
-- schema, the integrity check, the policy and the approval gate mean.
use llm_agent_control_plane.Base.{
  true, ◌≡◌, refl, sym, ◌∙◌, ◌↔◌, inl, inr, arith, Verdict, ok, Result-cases, ◌>>=◌, >>=-eq-ok,
}
use llm_agent_control_plane.Models.{AgentRequest, ToolCallPayload, BrokerDecision}
use llm_agent_control_plane.Platform.{Platform, DateTime}
use llm_agent_control_plane.Policy.{PolicyDocument, evaluate_policy}
use llm_agent_control_plane.Policy.Laws.{Permits, evaluate_policy_iff}
use llm_agent_control_plane.Schemas.{validate_tool_call_payload}
use llm_agent_control_plane.Schemas.Laws.{HasValidArguments, validate_tool_call_payload_iff}
use llm_agent_control_plane.Integrity.{verify_provenance_integrity}
use llm_agent_control_plane.Integrity.Laws.{IsIntact, of_attached, verify_provenance_integrity_iff}
use llm_agent_control_plane.Approval.{Registry, ApprovalGateResult, evaluate_approval_gate}
use llm_agent_control_plane.Approval.GateLaws.{IsApproved, evaluate_approval_gate_iff}
use llm_agent_control_plane.Broker.{
  BrokerOptions, hmac_key_of, tool_at, gated_decision, authorize_tool, broker_tool_request,
}

module _ (platform : Platform) (options : BrokerOptions) (request : AgentRequest)
    (policy : PolicyDocument) (t : ToolCallPayload) (now : DateTime) (used : Registry) where
  pub record IsAuthorized : Type 0 where
    pub shaped : HasValidArguments platform t
    pub permitted : Permits policy request t
    pub intact :
        IsIntact platform
          (hmac_key_of options.provenance_hmac_key)
          options.require_provenance_signature
          permitted.origin
    pub approved :
        IsApproved platform request permitted.tool_policy t options.require_approval_token now used

  -- The broker answers, and allows.
  abbrev pub Allows : Type 0
  Allows =
      (d : BrokerDecision) × (broker_tool_request platform options request policy t now used ≡ ok d)
      × (d.allowed ≡ true)

  gated_decision-allowed_iff :
      (g : ApprovalGateResult)
      → ((gated_decision (evaluate_policy policy request t) g).allowed ≡ true) ↔ (g.allowed ≡ true)
  unfolding gated_decision
  gated_decision-allowed_iff g = ground arith

  pub authorize_of_permits :
      (p : Permits policy request t)
      → authorize_tool platform options request policy t now used ≡ (
          evaluate_approval_gate platform request p.tool_policy t options.require_approval_token now
            used
          >>= λ g. ok (gated_decision (evaluate_policy policy request t) g))
  unfolding authorize_tool tool_at
  authorize_of_permits p = ground (arith, (evaluate_policy_iff policy request t).1 p, p.listed)

  authorize_of_refused :
      {d : BrokerDecision}
      → authorize_tool platform options request policy t now used ≡ ok d
      → d.allowed ≡ true
      → (evaluate_policy policy request t).allowed ≡ true
  unfolding authorize_tool
  authorize_of_refused h good = ground arith

  -- A decision of the second part that allows comes from the approval gate.
  gate_of_authorize :
      (d : BrokerDecision)
      → authorize_tool platform options request policy t now used ≡ ok d
      → d.allowed ≡ true
      → (p : Permits policy request t) × (g : ApprovalGateResult) × (evaluate_approval_gate platform
            request p.tool_policy t options.require_approval_token now used
          ≡ ok g)
        × (gated_decision (evaluate_policy policy request t) g ≡ d)
  gate_of_authorize d h good =
      let p = (evaluate_policy_iff policy request t).0 (authorize_of_refused h good) in
      let (g, answered, result) = >>=-eq-ok _ _ (sym (authorize_of_permits p) ∙ h) in
      (p, g, answered, cc)

  authorize_tool-IsApproved :
      (d : BrokerDecision)
      → authorize_tool platform options request policy t now used ≡ ok d
      → d.allowed ≡ true
      → (p : Permits policy request t) × IsApproved platform request p.tool_policy t
          options.require_approval_token now used
  authorize_tool-IsApproved d h good =
      let (p, g, answered, same) = gate_of_authorize d h good in
      (
        p,
        (evaluate_approval_gate_iff platform request p.tool_policy t options.require_approval_token
              now used).0
            (g, answered, (gated_decision-allowed_iff g).0 (rw same good)),
      )

  broker_of_parts :
      {v : Verdict}
      → (validate_tool_call_payload platform t).0 ≡ true
      → verify_provenance_integrity platform t.provenance
          (hmac_key_of options.provenance_hmac_key)
          options.require_provenance_signature
        ≡ ok v
      → v.0 ≡ true
      → broker_tool_request platform options request policy t now used
        ≡ authorize_tool platform options request policy t now used
  unfolding broker_tool_request
  broker_of_parts shaped answered good = ground arith

  -- What a decision that allows has passed.
  parts_of_broker :
      {d : BrokerDecision}
      → broker_tool_request platform options request policy t now used ≡ ok d
      → d.allowed ≡ true
      → ((validate_tool_call_payload platform t).0 ≡ true)
        × (v : Verdict) × (verify_provenance_integrity platform t.provenance
              (hmac_key_of options.provenance_hmac_key)
              options.require_provenance_signature
            ≡ ok v)
        × (v.0 ≡ true)
        × (authorize_tool platform options request policy t now used ≡ ok d)
  unfolding broker_tool_request
  parts_of_broker h good =
      elim (Result-cases (
        verify_provenance_integrity platform t.provenance (hmac_key_of options.provenance_hmac_key)
          options.require_provenance_signature)) [
            | inl (v, answered) ↦ (ground arith, v, answered, ground arith, ground arith)
            | inr (e, failed) ↦ absurd (ground arith)
          ]

  gated_decision-schema_valid :
      (g : ApprovalGateResult)
      → (gated_decision (evaluate_policy policy request t) g).schema_valid ≡ true
  unfolding gated_decision
  gated_decision-schema_valid g = ground arith

  pub broker_tool_request-schema_valid :
      (d : BrokerDecision)
      → broker_tool_request platform options request policy t now used ≡ ok d
      → d.allowed ≡ true
      → d.schema_valid ≡ true
  broker_tool_request-schema_valid d h good =
      let (shaped, v, answered, intact, later) = parts_of_broker h good in
      let (p, g, opened, same) = gate_of_authorize d later good in
      rw (← same) (gated_decision-schema_valid g)

  Allows-IsAuthorized : Allows → IsAuthorized
  Allows-IsAuthorized (d, h, good) =
      let (shaped, v, answered, intact, later) = parts_of_broker h good in
      let (p, approved) = authorize_tool-IsApproved d later good in
      let (origin, attached, signed) =
        (verify_provenance_integrity_iff platform _ t.provenance _).0 (v, answered, intact) in
      record {
        shaped = (validate_tool_call_payload_iff platform t).0 shaped;
        permitted = p;
        intact = λ strict. of_attached platform _ p.attached attached (signed strict);
        approved = approved;
      }

  IsAuthorized-Allows : IsAuthorized → Allows
  IsAuthorized-Allows a =
      let (v, answered, intact) =
        (verify_provenance_integrity_iff platform _ t.provenance _).1
          (a.permitted.origin, a.permitted.attached, a.intact) in
      let (g, opened, open') =
        (evaluate_approval_gate_iff platform request a.permitted.tool_policy t
            options.require_approval_token now used).1
          a.approved in
      (
        gated_decision (evaluate_policy policy request t) g,
        broker_of_parts ((validate_tool_call_payload_iff platform t).1 a.shaped) answered intact
            ∙ authorize_of_permits a.permitted
            ∙ rw opened refl,
        (gated_decision-allowed_iff g).1 open',
      )

  -- The broker answers, and allows, exactly if the tool's argument class accepts the arguments, the
  -- policy permits the call, the provenance bears a valid signature where signatures are required,
  -- and the call is approved where the tool needs approval.
  pub broker_tool_request_iff : Allows ↔ IsAuthorized
  broker_tool_request_iff = (Allows-IsAuthorized, IsAuthorized-Allows)
