-- ===== src/Approval/GateLaws.antt =====
-- src/agent_control_plane/approval_gate.py: what an approved call is, apart from the gate.
use llm_agent_control_plane.Base.{
  Bool, true, false, Option, none, some, ◌≡◌, refl, sym, ◌∙◌, ◌↔◌, ◌⊎◌, inl, inr, arith, Bool-cases,
  Option-cases, ok, >>=-eq-ok,
}
use llm_agent_control_plane.Models.{AgentRequest, ToolCallPayload, ApprovalToken, risk_value}
use llm_agent_control_plane.Platform.{Platform, DateTime}
use llm_agent_control_plane.Policy.{ToolPolicy}
use llm_agent_control_plane.Approval.Tokens.{Registry}
use llm_agent_control_plane.Approval.Gate.{
  ApprovalGateResult, token_result, human_result, not_required, required_result, needs_approval,
  evaluate_approval_gate,
}
use llm_agent_control_plane.Approval.Laws.{
  IsFresh, IsBoundTo, verify-IsFresh, verify_approval_token_iff,
}

-- The tool has no high impact.
abbrev pub NeedsNone : ToolPolicy → Type 0
NeedsNone tool_policy =
    (tool_policy.requires_human_approval ≡ false)
    × (tool_policy.external_effect ≡ false)
    × (tool_policy.destructive ≡ false)

module _ (platform : Platform) (request : AgentRequest) (tool_policy : ToolPolicy)
    (t : ToolCallPayload) (require_token : Bool) (now : DateTime) (used : Registry) where
  -- The request carries a fresh token that is bound to it.
  abbrev pub HasToken : Type 0
  HasToken =
      (token : ApprovalToken) × (request.approval_token ≡ some token)
      × IsFresh platform token now used
      × IsBoundTo platform token request t (risk_value tool_policy.risk_level)

  -- No token is asked for, none is there, and the request is flagged as approved.
  abbrev pub HasFlag : Type 0
  HasFlag =
      (request.approval_token ≡ none) × (require_token ≡ false) × (request.human_approval ≡ true)

  abbrev pub IsApproved : Type 0
  IsApproved = NeedsNone tool_policy ⊎ HasToken ⊎ HasFlag

  token_result-IsFresh :
      (token : ApprovalToken) {g : ApprovalGateResult}
      → required_result platform (some token) request tool_policy t require_token now used ≡ ok g
      → g.allowed ≡ true
      → IsFresh platform token now used
        × IsBoundTo platform token request t (risk_value tool_policy.risk_level)
  unfolding required_result token_result
  token_result-IsFresh token h good =
      let ((b, reason), verified, result) = >>=-eq-ok _ _ h in
      verify-IsFresh platform token now request t _ used verified (ground arith)

  flag_of_none :
      {g : ApprovalGateResult}
      → required_result platform none request tool_policy t require_token now used ≡ ok g
      → g.allowed ≡ true
      → (require_token ≡ false) × (request.human_approval ≡ true)
  unfolding required_result
  flag_of_none h good = ground arith

  -- What the code answers where the call is approved.
  token_answer :
      (token : ApprovalToken)
      → IsFresh platform token now used
      → IsBoundTo platform token request t (risk_value tool_policy.risk_level)
      → required_result platform (some token) request tool_policy t require_token now used
        ≡ ok (token_result token (true, "approval_token_valid"))
  unfolding required_result
  token_answer token fresh bound =
      rw ((verify_approval_token_iff platform token request t _ now used).1 (fresh, bound)) refl

  flag_answer :
      require_token ≡ false
      → request.human_approval ≡ true
      → required_result platform none request tool_policy t require_token now used
        ≡ ok (human_result request tool_policy)
  unfolding required_result
  flag_answer lax human = ground arith

  human_result-allowed :
      request.human_approval ≡ true → (human_result request tool_policy).allowed ≡ true
  unfolding human_result
  human_result-allowed human = ground arith

  gate_of_needed :
      (o : Option ApprovalToken)
      → request.approval_token ≡ o
      → needs_approval tool_policy ≡ true
      → evaluate_approval_gate platform request tool_policy t require_token now used
        ≡ required_result platform o request tool_policy t require_token now used
  unfolding evaluate_approval_gate
  gate_of_needed o has needed = ground arith

  gate_of_unneeded :
      needs_approval tool_policy ≡ false
      → evaluate_approval_gate platform request tool_policy t require_token now used
        ≡ ok not_required
  unfolding evaluate_approval_gate
  gate_of_unneeded unneeded = ground arith

  needs_approval_iff : (needs_approval tool_policy ≡ false) ↔ NeedsNone tool_policy
  unfolding needs_approval
  needs_approval_iff = ground arith

  abbrev pub Opens : Type 0
  Opens =
      (g : ApprovalGateResult) × (evaluate_approval_gate platform request tool_policy t
          require_token now used
        ≡ ok g)
      × (g.allowed ≡ true)

  Opens-IsApproved : Opens → IsApproved
  Opens-IsApproved (g, answered, good) = elim (Bool-cases (needs_approval tool_policy)) [
    | inr none_needed ↦ inl (needs_approval_iff.0 none_needed)
    | inl needed ↦ inr (elim (Option-cases request.approval_token) [
      | inl no_token ↦
          let (lax, human) =
            flag_of_none (sym (gate_of_needed none no_token needed) ∙ answered) good in
          inr (no_token, lax, human)
      | inr (token, has) ↦
          let (fresh, bound) =
            token_result-IsFresh token (sym (gate_of_needed (some token) has needed) ∙ answered)
              good in
          inl (token, has, fresh, bound)
    ])
  ]

  unneeded-Opens : needs_approval tool_policy ≡ false → Opens
  unfolding not_required
  unneeded-Opens unneeded = (not_required, gate_of_unneeded unneeded, refl)

  needed-Opens : needs_approval tool_policy ≡ true → HasToken ⊎ HasFlag → Opens
  unfolding token_result
  needed-Opens needed (inl (token, has, fresh, bound)) =
      (_, gate_of_needed (some token) has needed ∙ token_answer token fresh bound, refl)
  needed-Opens needed (inr (no_token, lax, human)) =
      (_, gate_of_needed none no_token needed ∙ flag_answer lax human, human_result-allowed human)

  IsApproved-Opens : IsApproved → Opens
  IsApproved-Opens (inl n) = unneeded-Opens (needs_approval_iff.1 n)
  IsApproved-Opens (inr given) = elim (Bool-cases (needs_approval tool_policy)) [
    | inl needed ↦ needed-Opens needed given
    | inr unneeded ↦ unneeded-Opens unneeded
  ]

  -- The approval gate answers, and allows, exactly if the call needs no approval, or the request
  -- carries a fresh token that is bound to it, or it carries none, none is required and it is
  -- flagged as approved by a human.
  pub evaluate_approval_gate_iff : Opens ↔ IsApproved
  evaluate_approval_gate_iff = (Opens-IsApproved, IsApproved-Opens)
