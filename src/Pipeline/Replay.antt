-- ===== src/Pipeline/Replay.antt =====
-- src/agent_control_plane/pipeline.py and approval_tokens.py: sequences of turns of one process, and what
-- they do with the token of a request.
use llm_agent_control_plane.Base.{
  String, true, Option, some, ◌≡◌, sym, ap, ◌∙◌, inl, inr, In, Result, ok,
}
use mathlib.Core.Option.{some-injective}
use llm_agent_control_plane.Models.{AgentRequest, ToolCallPayload, PipelineResult, ApprovalToken}
use llm_agent_control_plane.Platform.{Platform}
use llm_agent_control_plane.Policy.{PolicyDocument, ToolPolicy}
use llm_agent_control_plane.Approval.GateLaws.{NeedsNone, IsApproved}
use llm_agent_control_plane.Pipeline.State.{World, Clock, ControlPlanePipeline}
use llm_agent_control_plane.Pipeline.Protected.{run_protected}
use llm_agent_control_plane.Pipeline.Vulnerable.{run_vulnerable}
use llm_agent_control_plane.Pipeline.Safety.{IsCleared, run_protected-IsCleared}
use llm_agent_control_plane.Pipeline.Registry.{
  run_protected-In, run_vulnerable-used, consume_token-In_self,
}

module _ (platform : Platform) where
  -- What one turn is run with.
  pub record Turn : Type 0 where
    pub pipeline : ControlPlanePipeline
    pub policy : PolicyDocument
    pub clock : Clock
    pub request : AgentRequest

  abbrev pub protected_turn : Turn → World → Result PipelineResult × World
  protected_turn turn w = run_protected platform turn.pipeline turn.policy turn.clock turn.request w

  -- One turn of the process, on either path, with whatever result.
  pub data Step : World → World → Type 0 where
    protected : (turn : Turn) (w : World) → Step w (protected_turn turn w).1
    vulnerable :
        (turn : Turn) (w : World)
        → Step w (run_vulnerable platform turn.pipeline turn.clock turn.request w).1

  pub data Reach (w : World) : World → Type 0 where
    here : Reach w w
    next : {u v : World} → Reach w u → Step u v → Reach w v

  Step-In : {w v : World} → Step w v → (id : String) → In id w.used → In id v.used
  Step-In (protected turn w) id h =
      run_protected-In platform turn.pipeline turn.policy turn.clock turn.request w id h
  Step-In (vulnerable turn w) id h =
      rw (run_vulnerable-used platform turn.pipeline turn.policy turn.clock turn.request w) h

  Reach-In : {w v : World} → Reach w v → (id : String) → In id w.used → In id v.used
  Reach-In here id h = h
  Reach-In (next r s) id h = Step-In s id (Reach-In r id h)

  unneeded_of_approved :
      (turn : Turn) (w : World) (t : ToolCallPayload) (tp : ToolPolicy) (token : ApprovalToken)
      → turn.request.approval_token ≡ some token
      → In token.approval_id w.used
      → IsApproved platform turn.request tp t turn.pipeline.options.require_approval_token
          turn.clock.now w.used
      → NeedsNone tp
  unneeded_of_approved turn w t tp token has held (inl n) = n
  unneeded_of_approved turn w t tp token has held (inr (inl (token', has', fresh, bound))) =
      absurd (fresh.unused (rw (same_id token token' (sym has ∙ has')) at held))
    where
      same_id : (a b : ApprovalToken) → Option.some a ≡ some b → a.approval_id ≡ b.approval_id
      same_id a b e = ap (λ (x : ApprovalToken). x.approval_id) (some-injective a b e)
  unneeded_of_approved turn w t tp token has held (inr (inr (no_token, lax, human))) = absurd (cc)

  -- Once a turn has executed a tool, the token of its request never again opens the approval gate:
  -- whatever turns follow, a later turn whose request carries a token with the same approval id
  -- executes only a tool that by its policy needs no approval.
  pub no_replay :
      (first : Turn) (w : World) (r : PipelineResult) (w₁ : World) (token : ApprovalToken)
      → first.request.approval_token ≡ some token
      → protected_turn first w ≡ (ok r, w₁)
      → r.tool_executed ≡ true
      → (w₂ : World) → Reach w₁ w₂
      → (later : Turn) (r' : PipelineResult) (w₃ : World) (token' : ApprovalToken)
      → later.request.approval_token ≡ some token'
      → token'.approval_id ≡ token.approval_id
      → protected_turn later w₂ ≡ (ok r', w₃)
      → r'.tool_executed ≡ true
      → (t : ToolCallPayload) × (c : IsCleared platform later.pipeline later.policy later.clock
          later.request w₂ t)
        × NeedsNone c.authorized.permitted.tool_policy
  no_replay first w r w₁ token has run done w₂ reach later r' w₃ token' has' same run' done' =
      let (t₁, c₁, result, consumed) =
        run_protected-IsCleared platform first.pipeline first.policy first.clock first.request w r
          w₁ run done in
      let held₁ : In token.approval_id w₁.used =
        rw consumed (consume_token-In_self first.request.approval_token token w.used has) in
      let held₂ : In token'.approval_id w₂.used =
        rw same (Reach-In reach token.approval_id held₁) in
      let (t, c, result', consumed') =
        run_protected-IsCleared platform later.pipeline later.policy later.clock later.request w₂ r'
          w₃ run' done' in
      (
        t,
        c,
        unneeded_of_approved later w₂ t c.authorized.permitted.tool_policy token' has' held₂
            c.authorized.approved,
      )
