-- ===== src/Pipeline/Injection.antt =====
-- src/agent_control_plane/pipeline.py: `run_protected` and the calls that the request's retrieved chunks
-- and tool output may have made the model ask for.
use llm_agent_control_plane.Base.{
  true, false, some, ◌≡◌, sym, ◌≢◌, ◌⊎◌, inl, inr, arith, Bool-cases, ok,
}
use llm_agent_control_plane.Models.{
  AgentRequest, ToolCallPayload, PipelineResult, Provenance, untrusted, trust_eq, source_eq, model,
  system, internal_reviewed,
}
use llm_agent_control_plane.Platform.{Platform}
use llm_agent_control_plane.Policy.{PolicyDocument, ToolPolicy, find_tool}
use llm_agent_control_plane.Policy.Laws.{Permits, MayAuthorize}
use llm_agent_control_plane.Agent.{LlmAdapterResponse}
use llm_agent_control_plane.Pipeline.State.{World, Clock, ControlPlanePipeline}
use llm_agent_control_plane.Pipeline.Protected.{run_protected}
use llm_agent_control_plane.Pipeline.Safety.{run_protected-IsCleared}

-- Provenance from a source that only carries content: retrieval, tools, the web, mail and the like.
abbrev pub IsContent : Provenance → Type 0
IsContent p = (p.source ≢ model) × (p.source ≢ system) × (p.source ≢ internal_reviewed)

module _ {policy : PolicyDocument} {request : AgentRequest} where
  content_refused :
      (t : ToolCallPayload) (p : Provenance)
      → Permits policy request t
      → t.provenance ≡ some p
      → (p.trust ≡ untrusted) ⊎ IsContent p
      → ⊥
  content_refused t p permitted attached tainted =
      refute permitted.tool_policy permitted.origin p permitted.attached attached
        permitted.authorizing tainted
    where
      refute :
          (tp : ToolPolicy) (q p : Provenance)
          → t.provenance ≡ some q
          → t.provenance ≡ some p
          → MayAuthorize tp q
          → (p.trust ≡ untrusted) ⊎ IsContent p
          → ⊥
      refute tp q p a b may bad = ground arith

  disabled_refused :
      (t : ToolCallPayload) (tp : ToolPolicy)
      → Permits policy request t
      → find_tool t.tool_name policy.tools ≡ some tp
      → tp.enabled ≡ false
      → ⊥
  disabled_refused t tp permitted listed disabled =
      refute permitted.tool_policy permitted.listed permitted.enabled
    where
      refute : (q : ToolPolicy) → find_tool t.tool_name policy.tools ≡ some q → q.enabled ≡ true → ⊥
      refute q a b = ground arith

module _ (platform : Platform) (pipeline : ControlPlanePipeline) (policy : PolicyDocument)
    (clock : Clock) (request : AgentRequest) (w : World) where
  -- The call of the turn.
  abbrev pub Asks : ToolCallPayload → Type 0
  Asks t =
      (response : LlmAdapterResponse) × (pipeline.llm_adapter.generate request ≡ ok response)
      × (response.tool_call ≡ some t)

  permits_of_execution :
      (t : ToolCallPayload) (r : PipelineResult) (w' : World)
      → Asks t
      → run_protected platform pipeline policy clock request w ≡ (ok r, w')
      → r.tool_executed ≡ true
      → Permits policy request t
  permits_of_execution t r w' (response, produced, requested) run done =
      let (t', c, result, consumed) =
        run_protected-IsCleared platform pipeline policy clock request w r w' run done in
      let same : t' ≡ t =
        call_of_answer c.response response t' t c.produced produced c.requested requested in
      rw (sym same) c.authorized.permitted
    where
      call_of_answer :
          (a b : LlmAdapterResponse) (x y : ToolCallPayload)
          → pipeline.llm_adapter.generate request ≡ ok a
          → pipeline.llm_adapter.generate request ≡ ok b
          → a.tool_call ≡ some x
          → b.tool_call ≡ some y
          → x ≡ y
      call_of_answer a b x y f g m n = cc

  idle_of_refused :
      (t : ToolCallPayload)
      → Asks t
      → ¬ Permits policy request t
      → (r : PipelineResult) (w' : World)
      → run_protected platform pipeline policy clock request w ≡ (ok r, w')
      → r.tool_executed ≡ false
  idle_of_refused t asks refused r w' run = elim (Bool-cases r.tool_executed) [
    | inl done ↦ absurd (refused (permits_of_execution t r w' asks run done))
    | inr idle ↦ idle
  ]

  -- If the call's provenance is untrusted, or comes from a source that only carries content, a
  -- protected turn that returns has executed nothing, whatever the policy, the approval and the
  -- options are.
  pub run_protected-of_content :
      (t : ToolCallPayload) (p : Provenance)
      → Asks t
      → t.provenance ≡ some p
      → (p.trust ≡ untrusted) ⊎ IsContent p
      → (r : PipelineResult) (w' : World)
      → run_protected platform pipeline policy clock request w ≡ (ok r, w')
      → r.tool_executed ≡ false
  run_protected-of_content t p asks attached tainted =
      idle_of_refused t asks (λ permitted. content_refused t p permitted attached tainted)

  -- If strict isolation is on and the call aims at anything but the request's tenant, a protected
  -- turn that returns has executed nothing.
  pub run_protected-of_foreign_target :
      (t : ToolCallPayload)
      → Asks t
      → policy.tenant_isolation ≡ "strict"
      → t.target ≢ some request.tenant_id
      → (r : PipelineResult) (w' : World)
      → run_protected platform pipeline policy clock request w ≡ (ok r, w')
      → r.tool_executed ≡ false
  run_protected-of_foreign_target t asks isolated foreign =
      idle_of_refused t asks (λ permitted. foreign (permitted.tenant isolated))

  -- If the policy lists the call's tool as disabled, a protected turn that returns has executed
  -- nothing.
  pub run_protected-of_disabled :
      (t : ToolCallPayload) (tool_policy : ToolPolicy)
      → Asks t
      → find_tool t.tool_name policy.tools ≡ some tool_policy
      → tool_policy.enabled ≡ false
      → (r : PipelineResult) (w' : World)
      → run_protected platform pipeline policy clock request w ≡ (ok r, w')
      → r.tool_executed ≡ false
  run_protected-of_disabled t tool_policy asks listed disabled =
      idle_of_refused t asks (λ permitted. disabled_refused t tool_policy permitted listed disabled)
