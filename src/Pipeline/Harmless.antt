-- ===== src/Pipeline/Harmless.antt =====
-- src/agent_control_plane/pipeline.py: what `run_vulnerable` leaves undone.
use llm_agent_control_plane.Base.{
  some, os_error, true, false, none, ◌≡◌, refl, ok, raised, Option-cases, inl, inr, String,
}
use llm_agent_control_plane.Models.{AgentRequest, PipelineResult}
use llm_agent_control_plane.Platform.{Platform}
use llm_agent_control_plane.Agent.{LlmAdapterResponse, to_model_turn_result}
use llm_agent_control_plane.Audit.{write}
use llm_agent_control_plane.Pipeline.State.{World, Clock, ControlPlanePipeline, Outcome, log_then}
use llm_agent_control_plane.Pipeline.Vulnerable.{run_vulnerable}

-- The turn returned, on the path "vulnerable", as allowed, with the text as the model wrote it,
-- with nothing executed and the registry as it was; or the audit file raised, and nothing changed.
abbrev pub Harmless : Clock → String → World → Outcome PipelineResult → Type 0
Harmless clock text w (raised e, w') =
    (message : String) × (clock.audit_fault ≡ some message) × (e ≡ os_error message) × (w' ≡ w)
Harmless clock text w (ok r, w') =
    (r.path ≡ "vulnerable")
    × (r.allowed ≡ true)
    × (r.tool_executed ≡ false)
    × (r.simulation ≡ none)
    × (r.filtered_output ≡ text)
    × (w'.used ≡ w.used)

module _ (platform : Platform) (pipeline : ControlPlanePipeline) (clock : Clock)
    (request : AgentRequest) (w : World) where
  -- If the adapter answers, a vulnerable turn returns, on the path "vulnerable", as allowed, with
  -- the text as the model wrote it; it has executed nothing, has no simulation, and leaves the
  -- registry of used approvals as it was. Only an OSError of the audit file keeps it from
  -- returning, and then nothing has changed.
  pub run_vulnerable-Harmless :
      (response : LlmAdapterResponse)
      → pipeline.llm_adapter.generate request ≡ ok response
      → Harmless clock response.natural_language w
          (run_vulnerable platform pipeline clock request w)
  unfolding run_vulnerable to_model_turn_result log_then write
  run_vulnerable-Harmless response produced = elim (Option-cases response.tool_call) [
    | inl silent ↦ rw (produced, silent) (refl, refl, refl, refl, refl, refl)
    | inr (t, asked) ↦ elim (Option-cases clock.audit_fault) [
      | inl sound ↦ rw (produced, asked, sound) (refl, refl, refl, refl, refl, refl)
      | inr (message, broken) ↦ rw (produced, asked, broken) (message, refl, refl, refl)
    ]
  ]
