-- ===== src/Pipeline/Safety.antt =====
-- src/agent_control_plane/pipeline.py: what stands behind the execution of a tool in `run_protected`.
use llm_agent_control_plane.Base.{
  os_error, raised, ◌⊎◌, String, true, Option, none, some, ◌≡◌, refl, ap, inl, inr, arith,
  Bool-cases, ok, Exc, Result-cases, Option-cases,
}
use llm_agent_control_plane.Models.{
  AgentRequest, ToolCallPayload, ModelTurnResult, BrokerDecision, PipelineResult, SimulationResult,
}
use llm_agent_control_plane.Platform.{Platform}
use llm_agent_control_plane.Policy.{PolicyDocument}
use llm_agent_control_plane.Broker.{broker_tool_request}
use llm_agent_control_plane.Broker.Authority.{
  IsAuthorized, broker_tool_request_iff, broker_tool_request-schema_valid,
}
use llm_agent_control_plane.Simulator.{simulate_tool_execution}
use llm_agent_control_plane.Agent.{LlmAdapterResponse, to_model_turn_result}
use llm_agent_control_plane.Filter.{
  filter_output, build_filter_context_from_request, internal_display, OutputFilterResult,
}
use llm_agent_control_plane.Audit.{write}
use llm_agent_control_plane.Pipeline.State.{World, Clock, ControlPlanePipeline, Outcome, log_then}
use llm_agent_control_plane.Pipeline.Protected.{
  consume_token, executed, after_broker, brokered, after_filter, after_model, adapter_failed,
  generated, run_protected,
}

-- A turn that returned and executed a tool.
abbrev pub Executes : Outcome PipelineResult → PipelineResult → World → Type 0
Executes o r w' = (o ≡ (ok r, w')) × (r.tool_executed ≡ true)

-- The simulator's result is the turn's, and the request's token is consumed.
abbrev pub Ran : AgentRequest → ToolCallPayload → World → PipelineResult → World → Type 0
Ran request t w r w' =
    ((s : SimulationResult) × (simulate_tool_execution request t ≡ ok s) × (r.simulation ≡ some s))
    × (w'.used ≡ consume_token request.approval_token w.used)

module _ (clock : Clock) (request : AgentRequest) (text filtered : String) (t : ToolCallPayload)
    (w : World) where
  after_broker-Executes :
      (b : BrokerDecision) (r : PipelineResult) (w' : World)
      → Executes (after_broker clock request text filtered t b w) r w'
      → (b.allowed ≡ true) × Ran request t w r w'
  unfolding after_broker log_then write
  after_broker-Executes b r w' (h, done) = elim (Result-cases (simulate_tool_execution request t)) [
    | inl (s, simulated) ↦ (ground arith, ((s, simulated, ground arith), ground arith))
    | inr (e, failed) ↦ absurd (ground arith)
  ]

  pub after_broker-of_allowed :
      (b : BrokerDecision) (s : SimulationResult)
      → b.schema_valid ≡ true
      → b.allowed ≡ true
      → simulate_tool_execution request t ≡ ok s
      → after_broker clock request text filtered t b w
        ≡ executed clock request text filtered t b s w
  unfolding after_broker log_then write
  after_broker-of_allowed b s shaped allowed simulated = ground arith

  -- Behind the simulator, the token is consumed and the turn returns, or the audit file raises.
  abbrev pub Finishes : Outcome PipelineResult → Type 0
  Finishes o =
      (o.1.used ≡ consume_token request.approval_token w.used)
      × (((clock.audit_fault ≡ none)
            × (r : PipelineResult) × (o.0 ≡ ok r)
            × (r.tool_executed ≡ true))
          ⊎ ((message : String) × (clock.audit_fault ≡ some message)
              × (o.0 ≡ raised (os_error message))))

  pub executed-Finishes :
      (b : BrokerDecision) (s : SimulationResult)
      → Finishes (executed clock request text filtered t b s w)
  unfolding executed log_then write
  executed-Finishes b s = elim (Option-cases clock.audit_fault) [
    | inl sound ↦ rw sound (refl, inl (refl, _, refl, refl))
    | inr (message, broken) ↦ rw broken (refl, inr (message, refl, refl))
  ]

module _ (platform : Platform) (pipeline : ControlPlanePipeline) (policy : PolicyDocument)
    (clock : Clock) (request : AgentRequest) (w : World) where
  -- The output filter's answer to the model's text.
  abbrev pub filtered_by : String → OutputFilterResult
  filtered_by text =
      filter_output platform text
        (build_filter_context_from_request platform request internal_display) none

  abbrev pub IsAuthorizedNow : ToolCallPayload → Type 0
  IsAuthorizedNow t = IsAuthorized platform pipeline.options request policy t clock.now w.used

  -- What stands behind the execution of a call.
  pub record IsCleared (t : ToolCallPayload) : Type 0 where
    pub response : LlmAdapterResponse
    pub produced : pipeline.llm_adapter.generate request ≡ ok response
    pub requested : response.tool_call ≡ some t
    pub clean : (filtered_by response.natural_language).allowed ≡ true
    pub authorized : IsAuthorizedNow t
    pub simulation : SimulationResult
    pub simulated : simulate_tool_execution request t ≡ ok simulation

  after_filter-Executes :
      (text filtered : String) (t : ToolCallPayload) (r : PipelineResult) (w' : World)
      → Executes (after_filter platform pipeline policy clock request text filtered (some t) w) r w'
      → IsAuthorizedNow t × Ran request t w r w'
  unfolding after_filter brokered
  after_filter-Executes text filtered t r w' (h, done) =
      elim (Result-cases
        (broker_tool_request platform pipeline.options request policy t clock.now w.used)) [
          | inl (b, decided) ↦
              let (allowed, ran) =
                after_broker-Executes clock request text filtered t w b r w' (ground arith, done) in
              (
                (broker_tool_request_iff platform pipeline.options request policy t clock.now
                      w.used).0
                    (b, decided, allowed),
                ran,
              )
          | inr (e, failed) ↦ absurd (ground arith)
        ]

  -- A turn without a tool call executes nothing.
  after_filter-none :
      (text filtered : String) (r : PipelineResult) (w' : World)
      → ¬ Executes (after_filter platform pipeline policy clock request text filtered none w) r w'
  unfolding after_filter log_then write
  after_filter-none text filtered r w' (h, done) = ground arith

  after_model-Executes :
      (turn : ModelTurnResult) (r : PipelineResult) (w' : World)
      → Executes (after_model platform pipeline policy clock request turn w) r w'
      → ((filtered_by turn.natural_language).allowed ≡ true)
        × Executes
            (after_filter platform pipeline policy clock request turn.natural_language
              (filtered_by turn.natural_language).filtered_text
              turn.tool_call
              w)
            r
            w'
  unfolding after_model log_then write
  after_model-Executes turn r w' (h, done) =
      elim (Bool-cases (filtered_by turn.natural_language).allowed) [
        | inl clean ↦ (clean, (ground arith, done))
        | inr blocked ↦ absurd (ground arith)
      ]

  adapter_failed-ne-ok :
      (e : Exc) (r : PipelineResult) (w' : World)
      → adapter_failed platform pipeline policy clock request e w ≡ (ok r, w')
      → ⊥
  unfolding adapter_failed log_then write
  adapter_failed-ne-ok (Exc.llm_adapter_error m) r w' h = ground arith
  adapter_failed-ne-ok e r w' h = cc (ap (λ o. o.0) h)

  call_of_Executes :
      (o : Option ToolCallPayload) (text filtered : String) (r : PipelineResult) (w' : World)
      → Executes (after_filter platform pipeline policy clock request text filtered o w) r w'
      → (t : ToolCallPayload) × (o ≡ some t) × IsAuthorizedNow t × Ran request t w r w'
  call_of_Executes none text filtered r w' x = absurd (after_filter-none text filtered r w' x)
  call_of_Executes (some t) text filtered r w' x =
      let (authorized, ran) = after_filter-Executes text filtered t r w' x in
      (t, refl, authorized, ran)

  -- A protected turn that executes a tool had the call from the model, with text that passed the
  -- output filter; the broker's conditions held for it at the moment of the turn; the simulator's
  -- result is the one returned; and the request's approval token, if it has one, is consumed.
  pub run_protected-IsCleared :
      (r : PipelineResult) (w' : World)
      → run_protected platform pipeline policy clock request w ≡ (ok r, w')
      → r.tool_executed ≡ true
      → (t : ToolCallPayload) × (c : IsCleared t) × (r.simulation ≡ some c.simulation)
        × (w'.used ≡ consume_token request.approval_token w.used)
  unfolding run_protected generated to_model_turn_result
  run_protected-IsCleared r w' h done =
      elim (Result-cases (pipeline.llm_adapter.generate request)) [
        | inr (e, failed) ↦ absurd (adapter_failed-ne-ok e r w' (rw failed at h))
        | inl (response, produced) ↦
            let (clean, later) =
              after_model-Executes (to_model_turn_result response) r w' (rw produced at h, done) in
            let (t, requested, authorized, ((s, simulated, result), consumed)) =
              call_of_Executes response.tool_call _ _ r w' later in
            (
              t,
              record {
                response = response;
                produced = produced;
                requested = requested;
                clean = clean;
                authorized = authorized;
                simulation = s;
                simulated = simulated;
              },
              result,
              consumed,
            )
      ]

  run_of_cleared :
      (t : ToolCallPayload) (c : IsCleared t)
      → (d : BrokerDecision) × (run_protected platform pipeline policy clock request w
          ≡ executed clock request c.response.natural_language
              (filtered_by c.response.natural_language).filtered_text
              t
              d
              c.simulation
              w)
  unfolding run_protected generated to_model_turn_result after_model after_filter brokered
  run_of_cleared t c =
      let (d, decided, allowed) =
        (broker_tool_request_iff platform pipeline.options request policy t clock.now w.used).1
          c.authorized in
      let shaped =
        broker_tool_request-schema_valid platform pipeline.options request policy t clock.now w.used
          d decided allowed in
      (
        d,
        ground (
          arith,
          c.produced,
          c.requested,
          c.clean,
          decided,
          after_broker-of_allowed clock request c.response.natural_language
              (filtered_by c.response.natural_language).filtered_text t w d c.simulation shaped
              allowed c.simulated,
        ),
      )

  -- If the model's answer asks for the call, its text passes the output filter, the broker's
  -- conditions hold and the simulator returns, then the request's token is consumed, and the
  -- protected turn returns and has executed a tool, or, where the event cannot be appended to the
  -- audit file, lets that OSError through.
  pub IsCleared-run_protected :
      (t : ToolCallPayload)
      → IsCleared t
      → ((run_protected platform pipeline policy clock request w).1.used
          ≡ consume_token request.approval_token w.used)
        × (((clock.audit_fault ≡ none)
              × (r : PipelineResult) × ((run_protected platform pipeline policy clock request w).0
                  ≡ ok r)
              × (r.tool_executed ≡ true))
            ⊎ ((message : String) × (clock.audit_fault ≡ some message)
                × ((run_protected platform pipeline policy clock request w).0
                    ≡ raised (os_error message))))
  IsCleared-run_protected t c =
      let (d, same) = run_of_cleared t c in
      rw same (
        executed-Finishes clock request c.response.natural_language
          (filtered_by c.response.natural_language).filtered_text t w d c.simulation)
