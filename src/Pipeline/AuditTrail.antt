-- ===== src/Pipeline/AuditTrail.antt =====
-- src/agent_control_plane/pipeline.py: the audit file along a protected turn.
use text.Mathlib.TextEquality.{eq_iff}
use llm_agent_control_plane.Base.{
  String, true, false, Option, none, some, ◌≡◌, refl, inl, inr, arith, Bool-cases, Result, ok,
  raised, Exc, llm_adapter_error, Result-cases,
}
use llm_agent_control_plane.Models.{
  AgentRequest, ToolCallPayload, ModelTurnResult, BrokerDecision, SimulationResult,
}
use llm_agent_control_plane.Platform.{Platform}
use llm_agent_control_plane.Policy.{PolicyDocument}
use llm_agent_control_plane.Simulator.{simulate_tool_execution}
use llm_agent_control_plane.Agent.{LlmAdapterResponse, to_model_turn_result}
use llm_agent_control_plane.Pipeline.Events.{blocked_event_type, audit_event, filter_event}
use llm_agent_control_plane.Pipeline.State.{World, Clock, ControlPlanePipeline}
use llm_agent_control_plane.Pipeline.Protected.{
  consume_token, executed, after_broker, brokered, after_filter, after_model, adapter_failed,
  generated, run_protected,
}
use llm_agent_control_plane.Pipeline.Safety.{filtered_by, after_broker-of_allowed}
use llm_agent_control_plane.Pipeline.Telling.{
  log_then-Audited, log_then-Audited_failure, blocked_event_type-ne, tool_event-TellsOf, Audited,
}

module _ (clock : Clock) (request : AgentRequest) (text filtered : String) (t : ToolCallPayload)
    (w : World) where
  executed-Audited :
      (b : BrokerDecision) (s : SimulationResult)
      → Audited clock request w (executed clock request text filtered t b s w)
  unfolding executed
  executed-Audited b s =
      log_then-Audited clock request w
        (record w { used = consume_token request.approval_token w.used }) refl _ _
        (tool_event-TellsOf request _ t "tool_allowed" "simulation" true b.reason _ _ (some b) refl
          refl refl (λ _. refl, λ _. refl))

  -- The branches of `after_broker` that execute nothing.
  after_broker-Audited_shape :
      (b : BrokerDecision)
      → b.schema_valid ≡ false
      → Audited clock request w (after_broker clock request text filtered t b w)
  unfolding after_broker
  after_broker-Audited_shape b misshaped = simp misshaped (
      log_then-Audited clock request w w refl _ _ (
        tool_event-TellsOf request _ t "schema_validation_failed" "schema_validation" false b.reason
          false none none refl refl refl
          (
            λ e. absurd (ground (arith, eq_iff "schema_validation_failed" "tool_allowed", e)),
            λ e. cc,
          )))

  after_broker-Audited_denied :
      (b : BrokerDecision)
      → b.schema_valid ≡ true
      → b.allowed ≡ false
      → Audited clock request w (after_broker clock request text filtered t b w)
  unfolding after_broker
  after_broker-Audited_denied b shaped denied =
      simp (shaped, denied)
        (log_then-Audited clock request w w refl _ _ (
          tool_event-TellsOf request _ t (blocked_event_type b.reason) "tool_broker" false b.reason
            _ _ (some b) refl refl refl (λ e. absurd (blocked_event_type-ne b.reason e), λ e. cc)))

  after_broker-Audited_failed :
      (b : BrokerDecision) (x : Exc)
      → b.schema_valid ≡ true
      → b.allowed ≡ true
      → simulate_tool_execution request t ≡ raised x
      → Audited clock request w (after_broker clock request text filtered t b w)
  unfolding after_broker
  after_broker-Audited_failed b x shaped allowed failed = simp (shaped, allowed, failed) (inl refl)

  after_broker-Audited :
      (b : BrokerDecision)
      → Audited clock request w (after_broker clock request text filtered t b w)
  after_broker-Audited b = elim (Bool-cases b.schema_valid) [
    | inr misshaped ↦ after_broker-Audited_shape b misshaped
    | inl shaped ↦ elim (Bool-cases b.allowed) [
      | inr denied ↦ after_broker-Audited_denied b shaped denied
      | inl allowed ↦ elim (Result-cases (simulate_tool_execution request t)) [
        | inl (s, simulated) ↦
            rw
              (after_broker-of_allowed clock request text filtered t w b s shaped allowed simulated)
              (executed-Audited b s)
        | inr (x, failed) ↦ after_broker-Audited_failed b x shaped allowed failed
      ]
    ]
  ]

  brokered-Audited :
      (b : Result BrokerDecision)
      → Audited clock request w (brokered clock request text filtered t b w)
  unfolding brokered
  brokered-Audited (ok b) = after_broker-Audited b
  brokered-Audited (raised x) = inl refl

module _ (platform : Platform) (pipeline : ControlPlanePipeline) (policy : PolicyDocument)
    (clock : Clock) (request : AgentRequest) (w : World) where
  after_filter-Audited :
      (text filtered : String) (o : Option ToolCallPayload)
      → Audited clock request w
          (after_filter platform pipeline policy clock request text filtered o w)
  unfolding after_filter audit_event
  after_filter-Audited text filtered (some t) = brokered-Audited clock request text filtered t w _
  after_filter-Audited text filtered none = log_then-Audited clock request w w refl _ _ (record {
    same_request = refl;
    same_tenant = refl;
    same_allowed = refl;
    same_stage = refl;
    same_reason = refl;
    execution =
        (λ e. absurd (ground (arith, eq_iff "model_response_allowed" "tool_allowed", e)), λ e. cc);
  })

  blocked-Audited :
      (turn : ModelTurnResult)
      → (filtered_by platform pipeline policy clock request w turn.natural_language).allowed ≡ false
      → Audited clock request w (after_model platform pipeline policy clock request turn w)
  unfolding after_model filter_event audit_event
  blocked-Audited turn blocked = simp blocked (
      log_then-Audited clock request w w refl _ _ (record {
        same_request = refl;
        same_tenant = refl;
        same_allowed = refl;
        same_stage = refl;
        same_reason = refl;
        execution = (
          λ e. absurd (ground (arith, eq_iff "output_filter_blocked" "tool_allowed", e)),
          λ e. cc,
        );
      }))

  passed-Audited :
      (turn : ModelTurnResult)
      → (filtered_by platform pipeline policy clock request w turn.natural_language).allowed ≡ true
      → Audited clock request w (after_model platform pipeline policy clock request turn w)
  unfolding after_model
  passed-Audited turn clean =
      simp clean (after_filter-Audited turn.natural_language _ turn.tool_call)

  generated-Audited :
      (r : Result LlmAdapterResponse)
      → Audited clock request w (generated platform pipeline policy clock request r w)
  unfolding generated adapter_failed audit_event
  generated-Audited (ok response) =
      elim (Bool-cases
        (filtered_by platform pipeline policy clock request w response.natural_language).allowed) [
          | inl clean ↦ passed-Audited (to_model_turn_result response) clean
          | inr blocked ↦ blocked-Audited (to_model_turn_result response) blocked
        ]
  generated-Audited (raised (llm_adapter_error m)) =
      log_then-Audited_failure clock request w _ _ refl refl refl
  generated-Audited (raised e) = inl refl

  -- A protected turn that returns appends exactly one line to the audit file, for an event that has
  -- the request's identifier and tenant and the result's verdict, stage and reason, and that says
  -- "tool_allowed" exactly if a tool was executed. A turn that lets an exception through, the audit
  -- file's OSError among them, appends no line, or one for a failure of the adapter that allows
  -- nothing.
  pub run_protected-Audited :
      Audited clock request w (run_protected platform pipeline policy clock request w)
  unfolding run_protected
  run_protected-Audited = generated-Audited _
