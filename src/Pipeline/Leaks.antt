-- ===== src/Pipeline/Leaks.antt =====
-- src/agent_control_plane/pipeline.py: `run_protected` when the model's text holds an `sk-` key.
use llm_agent_control_plane.Base.{
  ◌⊎◌, inl, inr, some, raised, os_error, Option-cases, String, ◌<>◌, false, none, ◌≡◌, refl, ok,
}
use llm_agent_control_plane.Models.{AgentRequest, PipelineResult}
use llm_agent_control_plane.Platform.{Platform}
use llm_agent_control_plane.Policy.{PolicyDocument}
use llm_agent_control_plane.Regex.{is_token_char}
use llm_agent_control_plane.Regex.Laws.{Starts}
use llm_agent_control_plane.Filter.Secrets.{filter_output-of_secret}
use llm_agent_control_plane.Agent.{LlmAdapterResponse, to_model_turn_result}
use llm_agent_control_plane.Filter.{build_filter_context_from_request, internal_display}
use llm_agent_control_plane.Audit.{write}
use llm_agent_control_plane.Pipeline.Events.{filter_event}
use llm_agent_control_plane.Pipeline.Logging.{with_line}
use llm_agent_control_plane.Pipeline.State.{World, Clock, ControlPlanePipeline, log_then}
use llm_agent_control_plane.Pipeline.Protected.{
  after_model, generated, run_protected, protected_result,
}
use llm_agent_control_plane.Pipeline.Safety.{filtered_by}

-- What a turn answers, and leaves behind, when the output filter blocks the text.
abbrev pub StoppedByFilter : PipelineResult → String → Type 0
StoppedByFilter r text =
    (r.allowed ≡ false)
    × (r.stage ≡ "output_filter")
    × (r.tool_executed ≡ false)
    × (r.simulation ≡ none)
    × (r.filtered_output ≡ "")
    × (r.model_text ≡ text)

module _ (platform : Platform) (pipeline : ControlPlanePipeline) (policy : PolicyDocument)
    (clock : Clock) (request : AgentRequest) (w : World) where
  -- If the model's answer holds "sk-" before at least 20 characters of `[a-zA-Z0-9_-]`, whatever
  -- else it says and whatever tool call comes with it, the protected turn returns a result that is
  -- not allowed, of stage "output_filter", with no tool executed, no simulation and an empty
  -- filtered output, and consumes no token; or, where the event cannot be appended to the audit
  -- file, it lets that OSError through and changes nothing. The model_text of a result is the text
  -- itself, key included.
  pub run_protected-of_secret :
      (response : LlmAdapterResponse) (pre secret : String)
      → pipeline.llm_adapter.generate request ≡ ok response
      → response.natural_language ≡ pre <> ("sk-" <> secret)
      → Starts is_token_char 20 secret
      → ((clock.audit_fault ≡ none)
          × (r : PipelineResult) × (w' : World) × (run_protected platform pipeline policy clock
                request w
              ≡ (ok r, w'))
          × StoppedByFilter r (pre <> ("sk-" <> secret))
          × (w'.used ≡ w.used))
        ⊎ ((message : String) × (clock.audit_fault ≡ some message)
            × (run_protected platform pipeline policy clock request w
                ≡ (raised (os_error message), w)))
  unfolding run_protected generated to_model_turn_result after_model protected_result log_then write
  run_protected-of_secret response pre secret produced says h =
      let text = pre <> ("sk-" <> secret) in
      let result = filtered_by platform pipeline policy clock request w text in
      let (blocked, _, _) =
        filter_output-of_secret platform
          (build_filter_context_from_request platform request internal_display) pre secret h in
      elim (Option-cases clock.audit_fault) [
        | inl sound ↦ inl (
          sound,
          protected_result request false "output_filter" result.reason text "",
          with_line clock (filter_event request result) w,
          rw (produced, says, blocked, sound) refl,
          (refl, refl, refl, refl, refl, refl),
          refl,
        )
        | inr (message, broken) ↦ inr (message, broken, rw (produced, says, blocked, broken) refl)
      ]
