-- ===== src/Pipeline/Registry.antt =====
-- src/agent_control_plane/pipeline.py and approval_tokens.py: the registry of used approvals along
-- protected and vulnerable turns.
use llm_agent_control_plane.Base.{
  true, String, Option, none, some, ◌≡◌, refl, ◌⊎◌, inl, inr, arith, In, contains_iff, os_error,
  Bool-cases, Result-cases, llm_adapter_error, Result, ok, raised, string_eq, Exc,
}
use llm_agent_control_plane.Models.{
  PipelineResult, AgentRequest, ToolCallPayload, BrokerDecision, ApprovalToken, SimulationResult,
}
use llm_agent_control_plane.Platform.{Platform}
use llm_agent_control_plane.Policy.{PolicyDocument}
use llm_agent_control_plane.Approval.{Registry, mark_approval_token_used}
use llm_agent_control_plane.Agent.{LlmAdapterResponse, to_model_turn_result}
use llm_agent_control_plane.Broker.{broker_tool_request}
use llm_agent_control_plane.Broker.Authority.{broker_tool_request_iff}
use llm_agent_control_plane.Simulator.{simulate_tool_execution}
use llm_agent_control_plane.Audit.{AuditEvent, write}
use llm_agent_control_plane.Pipeline.State.{Outcome, World, Clock, ControlPlanePipeline, log_then}
use llm_agent_control_plane.Pipeline.Protected.{
  consume_token, executed, after_broker, brokered, after_filter, after_model, adapter_failed,
  generated, run_protected, protected_result,
}
use llm_agent_control_plane.Pipeline.Logging.{log_then-cases}
use llm_agent_control_plane.Pipeline.Safety.{
  filtered_by, IsCleared, IsAuthorizedNow, executed-Finishes,
}
use llm_agent_control_plane.Pipeline.Vulnerable.{run_vulnerable}

mark-In : (x id : String) (used : Registry) → In x used → In x (mark_approval_token_used id used)
unfolding mark_approval_token_used
mark-In x id used h = ground arith

mark-In_self : (id : String) (used : Registry) → In id (mark_approval_token_used id used)
unfolding mark_approval_token_used
mark-In_self id used = ground (arith, contains_iff used id)

consume_token-In :
    (x : String) (o : Option ApprovalToken) (used : Registry)
    → In x used
    → In x (consume_token o used)
unfolding consume_token
consume_token-In x none used h = h
consume_token-In x (some token) used h = mark-In x token.approval_id used h

pub consume_token-In_self :
    (o : Option ApprovalToken) (token : ApprovalToken) (used : Registry)
    → o ≡ some token
    → In token.approval_id (consume_token o used)
unfolding consume_token
consume_token-In_self o token used e = rw e (mark-In_self token.approval_id used)

abbrev pub IsExecuted : Result PipelineResult → Type 0
IsExecuted (ok r) = r.tool_executed ≡ true
IsExecuted (raised e) = ⊥

-- The end of a turn that ran the simulator: it returns with a tool executed, or the audit file
-- raised.
abbrev pub IsFinished : Clock → Result PipelineResult → Type 0
IsFinished clock result =
    IsExecuted result
    ⊎ ((message : String) × (clock.audit_fault ≡ some message)
        × (result ≡ raised (os_error message)))

-- Nothing was executed, and the registry is as it was.
abbrev pub IsIdle : World → Outcome PipelineResult → Type 0
IsIdle w o = (¬ IsExecuted o.0) × (o.1.used ≡ w.used)

log_then-IsIdle :
    (clock : Clock) (e : AuditEvent) (w : World) (result : Result PipelineResult)
    → ¬ IsExecuted result
    → IsIdle w (log_then clock e w result)
log_then-IsIdle clock e w result idle = elim (log_then-cases clock e w result) [
  | inl (sound, written) ↦ rw written (idle, refl)
  | inr (message, broken, failed) ↦ rw failed (λ h. h, refl)
]

module _ (clock : Clock) (request : AgentRequest) (text filtered : String) (t : ToolCallPayload)
    (w : World) where
  -- Idle; or the decision allowed the call, the simulator returned and the token is consumed.
  abbrev Brokered : BrokerDecision → Outcome PipelineResult → Type 0
  Brokered b o =
      IsIdle w o
      ⊎ ((b.allowed ≡ true)
          × ((s : SimulationResult) × (simulate_tool_execution request t ≡ ok s))
          × IsFinished clock o.0
          × (o.1.used ≡ consume_token request.approval_token w.used))

  executed-IsFinished :
      (b : BrokerDecision) (s : SimulationResult)
      → IsFinished clock (executed clock request text filtered t b s w).0
        × ((executed clock request text filtered t b s w).1.used
            ≡ consume_token request.approval_token w.used)
  executed-IsFinished b s =
      let (consumed, finished) = executed-Finishes clock request text filtered t w b s in
      (
        elim finished [
          | inl (sound, r, returned, ran) ↦ inl (rw returned ran)
          | inr (message, broken, failed) ↦ inr (message, broken, failed)
        ],
        consumed,
      )

  after_broker-Brokered :
      (b : BrokerDecision) → Brokered b (after_broker clock request text filtered t b w)
  unfolding after_broker protected_result
  after_broker-Brokered b = elim (Bool-cases b.schema_valid) [
    | inr misshaped ↦ rw misshaped (inl (log_then-IsIdle clock _ w _ (λ e. cc e)))
    | inl shaped ↦ elim (Bool-cases b.allowed) [
      | inr denied ↦ rw (shaped, denied) (inl (log_then-IsIdle clock _ w _ (λ e. cc e)))
      | inl allowed ↦ elim (Result-cases (simulate_tool_execution request t)) [
        | inr (x, failed) ↦ rw (shaped, allowed, failed) (inl (λ h. h, refl))
        | inl (s, simulated) ↦
            let (finished, consumed) = executed-IsFinished b s in
            inr (
              allowed,
              (s, simulated),
              simp (shaped, allowed, simulated) finished,
              simp (shaped, allowed, simulated) consumed,
            )
      ]
    ]
  ]

module _ (platform : Platform) (pipeline : ControlPlanePipeline) (policy : PolicyDocument)
    (clock : Clock) (request : AgentRequest) (w : World) where
  -- Idle; or the call was authorized, the simulator returned and the token is consumed.
  abbrev Filtered : Option ToolCallPayload → Outcome PipelineResult → Type 0
  Filtered o outcome =
      IsIdle w outcome
      ⊎ ((t : ToolCallPayload) × (o ≡ some t)
          × IsAuthorizedNow platform pipeline policy clock request w t
          × ((s : SimulationResult) × (simulate_tool_execution request t ≡ ok s))
          × IsFinished clock outcome.0
          × (outcome.1.used ≡ consume_token request.approval_token w.used))

  -- Idle; or the call was cleared and the token is consumed.
  abbrev pub IsSettled : Outcome PipelineResult → Type 0
  IsSettled outcome =
      IsIdle w outcome
      ⊎ ((t : ToolCallPayload) × IsCleared platform pipeline policy clock request w t
          × IsFinished clock outcome.0
          × (outcome.1.used ≡ consume_token request.approval_token w.used))

  after_filter-Filtered :
      (text filtered : String) (o : Option ToolCallPayload)
      → Filtered o (after_filter platform pipeline policy clock request text filtered o w)
  unfolding after_filter brokered protected_result
  after_filter-Filtered text filtered none = inl (log_then-IsIdle clock _ w _ (λ e. cc e))
  after_filter-Filtered text filtered (some t) =
      elim (Result-cases
        (broker_tool_request platform pipeline.options request policy t clock.now w.used)) [
          | inr (e, failed) ↦ rw failed (inl (λ h. h, refl))
          | inl (b, decided) ↦
              rw decided (elim (after_broker-Brokered clock request text filtered t w b) [
                | inl idle ↦ inl idle
                | inr (allowed, simulated, finished, consumed) ↦ inr (
                  t,
                  refl,
                  (broker_tool_request_iff platform pipeline.options request policy t clock.now
                        w.used).0
                      (b, decided, allowed),
                  simulated,
                  finished,
                  consumed,
                )
              ])
        ]

  response-IsSettled :
      (response : LlmAdapterResponse)
      → pipeline.llm_adapter.generate request ≡ ok response
      → IsSettled
          (after_model platform pipeline policy clock request (to_model_turn_result response) w)
  unfolding after_model to_model_turn_result protected_result
  response-IsSettled response produced =
      elim (Bool-cases
        (filtered_by platform pipeline policy clock request w response.natural_language).allowed) [
          | inr blocked ↦ rw blocked (inl (log_then-IsIdle clock _ w _ (λ e. cc e)))
          | inl clean ↦
              rw clean
                (elim (after_filter-Filtered response.natural_language _ response.tool_call) [
                  | inl idle ↦ inl idle
                  | inr (t, requested, authorized, (s, simulated), finished, consumed) ↦ inr (
                    t,
                    record {
                      response = response;
                      produced = produced;
                      requested = requested;
                      clean = clean;
                      authorized = authorized;
                      simulation = s;
                      simulated = simulated;
                    },
                    finished,
                    consumed,
                  )
                ])
        ]

  failed-IsSettled :
      (e : Exc) → IsSettled (adapter_failed platform pipeline policy clock request e w)
  unfolding adapter_failed
  failed-IsSettled (llm_adapter_error m) = inl (log_then-IsIdle clock _ w _ (λ h. h))
  failed-IsSettled e = inl (λ h. h, refl)

  pub run_protected-IsSettled : IsSettled (run_protected platform pipeline policy clock request w)
  unfolding run_protected generated
  run_protected-IsSettled = elim (Result-cases (pipeline.llm_adapter.generate request)) [
    | inl (response, produced) ↦ rw produced (response-IsSettled response produced)
    | inr (e, failed) ↦ rw failed (failed-IsSettled e)
  ]

  -- A protected turn executes nothing and leaves the registry of used approvals as it was; or its
  -- call was cleared, the registry has the request's token, if there is one, as its only new entry,
  -- and the turn returns with a tool executed or lets the OSError of the audit file through.
  pub run_protected-used :
      (result : Result PipelineResult) (w' : World)
      → run_protected platform pipeline policy clock request w ≡ (result, w')
      → ((¬ IsExecuted result) × (w'.used ≡ w.used))
        ⊎ ((t : ToolCallPayload) × IsCleared platform pipeline policy clock request w t
            × IsFinished clock result
            × (w'.used ≡ consume_token request.approval_token w.used))
  run_protected-used result w' run = rw run at run_protected-IsSettled

  pub run_protected-In :
      (x : String)
      → In x w.used
      → In x (run_protected platform pipeline policy clock request w).1.used
  run_protected-In x h = elim run_protected-IsSettled [
    | inl (idle, same) ↦ rw same h
    | inr (t, c, finished, consumed) ↦
        rw consumed (consume_token-In x request.approval_token w.used h)
  ]

  -- A vulnerable turn never touches the registry.
  pub run_vulnerable-used : (run_vulnerable platform pipeline clock request w).1.used ≡ w.used
  unfolding run_vulnerable log_then write
  run_vulnerable-used = ground arith
