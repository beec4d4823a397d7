-- ===== src/Pipeline/Guarded.antt =====
-- src/agent_control_plane/pipeline.py, policy_engine.py, policy_integrity.py and
-- scripts/validate_policy.py: a turn under a policy file that the script accepts.
use llm_agent_control_plane.Base.{
  String, true, false, some, [], ◌∷◌, ◌≡◌, ◌≢◌, ◌⊎◌, inl, inr, In, arith, ok,
}
use llm_agent_control_plane.Models.{AgentRequest, ToolCallPayload, PipelineResult}
use llm_agent_control_plane.Platform.{Platform}
use llm_agent_control_plane.Host.{Host}
use llm_agent_control_plane.Policy.{find_tool, ToolPolicy, PolicyDocument}
use llm_agent_control_plane.Policy.Loading.{load_policy}
use llm_agent_control_plane.Policy.Loading.Soundness.{
  Validates, IsSafePolicy, load_policy-IsSafePolicy,
}
use llm_agent_control_plane.Policy.Validation.Soundness.{IsSetOrder}
use llm_agent_control_plane.Policy.Script.{main}
use llm_agent_control_plane.Policy.Script.Golden.{IsSuccess, main_of_success}
use llm_agent_control_plane.Approval.GateLaws.{HasToken, HasFlag, IsApproved}
use llm_agent_control_plane.Broker.Authority.{IsAuthorized}
use llm_agent_control_plane.Pipeline.State.{World, Clock, ControlPlanePipeline}
use llm_agent_control_plane.Pipeline.Safety.{Executes, IsCleared, run_protected-IsCleared}
use llm_agent_control_plane.Pipeline.Turn.{under_policy, run_protected_at}

module _ (platform : Platform) (pipeline : ControlPlanePipeline) (clock : Clock)
    (request : AgentRequest) (w : World) where
  -- The tool is not run_shell; the target is the request's tenant; for send_email and
  -- export_records there is a token bound to the call, or the flag; to export needs the role of an
  -- administrator.
  pub record IsHarnessed (policy : PolicyDocument) (t : ToolCallPayload) : Type 0 where
    pub no_shell : t.tool_name ≢ "run_shell"
    pub own_tenant : t.target ≡ some request.tenant_id
    pub tool_policy : ToolPolicy
    pub listed : find_tool t.tool_name policy.tools ≡ some tool_policy
    pub export_by_admin : t.tool_name ≡ "export_records" → request.role ≡ "admin"
    pub approved :
        (t.tool_name ≡ "send_email") ⊎ (t.tool_name ≡ "export_records")
        → HasToken platform request tool_policy t pipeline.options.require_approval_token clock.now
            w.used
          ⊎ HasFlag platform request tool_policy t pipeline.options.require_approval_token clock.now
              w.used

  approved_of_needed :
      (tp : ToolPolicy) (t : ToolCallPayload)
      → tp.requires_human_approval ≡ true
      → IsApproved platform request tp t pipeline.options.require_approval_token clock.now w.used
      → HasToken platform request tp t pipeline.options.require_approval_token clock.now w.used
        ⊎ HasFlag platform request tp t pipeline.options.require_approval_token clock.now w.used
  approved_of_needed tp t needed (inl (not_needed, external, destructive)) = absurd (ground arith)
  approved_of_needed tp t needed (inr approval) = approval

  in_singleton : (s role : String) → In role (s ∷ []) → role ≡ s
  in_singleton s role (inl e) = e
  in_singleton s role (inr h) = elim h [ ]

  harnessed :
      (policy : PolicyDocument) (t : ToolCallPayload)
      → IsSafePolicy policy
      → IsAuthorized platform pipeline.options request policy t clock.now w.used
      → IsHarnessed policy t
  harnessed policy t s a =
      let p = a.permitted in
      let safe = s.safe t.tool_name p.tool_policy p.listed in
      record {
        no_shell = λ e. ground (arith, safe.shell_disabled e, p.enabled);
        own_tenant = p.tenant s.isolates;
        tool_policy = p.tool_policy;
        listed = p.listed;
        export_by_admin =
            λ e. in_singleton "admin" request.role (rw (safe.export_by_admin e) at p.role);
        approved = λ e.
            approved_of_needed p.tool_policy t
              (elim e [
                | inl mail ↦ safe.email_approved mail
                | inr export ↦ safe.export_approved export
              ])
              a.approved;
      }

  -- If pydantic's class accepts every mapping that has a value of the right type for each field,
  -- iterating a set of keys yields exactly its members, and scripts/validate_policy.py exits with
  -- 0 on a policy file, then a turn under this file that executes a tool has a call that is
  -- cleared under the loaded policy, whose tool is not run_shell and whose target is the request's
  -- tenant; for send_email and export_records the request has a fresh token bound to the call, or
  -- no token is required, none is there and the request is flagged as approved; and for
  -- export_records the request's role is "admin".
  pub run_protected_at-IsHarnessed :
      (host : Host) (policy_path hash_path : String)
      → Validates host
      → IsSetOrder platform
      → IsSuccess (main platform host policy_path hash_path false)
      → (r : PipelineResult) (w' : World)
      → Executes (run_protected_at platform pipeline clock request host policy_path w) r w'
      → (policy : PolicyDocument) × (load_policy platform host policy_path ≡ ok policy)
        × (t : ToolCallPayload) × IsCleared platform pipeline policy clock request w t
        × IsHarnessed policy t
  unfolding run_protected_at under_policy
  run_protected_at-IsHarnessed host policy_path hash_path validates ordered success r w' (h, done) =
      let (raw, loaded, sound, same) =
        main_of_success platform host ordered policy_path hash_path success in
      let (policy, made, safe) =
        load_policy-IsSafePolicy platform host policy_path validates raw loaded sound in
      let (t, c, result, consumed) =
        run_protected-IsCleared platform pipeline policy clock request w r w' (rw made at h) done in
      (policy, made, t, c, harnessed policy t safe c.authorized)
