-- ===== src/Pipeline/Returns.antt =====
-- src/agent_control_plane/pipeline.py: turns that let no exception through.
use llm_agent_control_plane.Base.{
  String, Bool, true, false, Option, none, some, ◌≡◌, refl, inl, inr, arith, Bool-cases, string_eq,
  Result, ok, raised,
}
use llm_agent_control_plane.Models.{AgentRequest, ToolCallPayload, Provenance, Items, arr, nil}
use llm_agent_control_plane.Platform.{Platform, Bytes}
use llm_agent_control_plane.Host.{Host}
use llm_agent_control_plane.Audit.{write}
use llm_agent_control_plane.Policy.Loading.{load_policy}
use llm_agent_control_plane.Pipeline.Turn.{under_policy, run_protected_at}
use llm_agent_control_plane.Policy.{PolicyDocument, ToolPolicy, evaluate_policy}
use llm_agent_control_plane.Policy.Laws.{evaluate_policy_iff}
use llm_agent_control_plane.Integrity.{verify_provenance_integrity}
use llm_agent_control_plane.Approval.{evaluate_approval_gate, required_result}
use llm_agent_control_plane.Broker.{authorize_tool, broker_tool_request, hmac_key_of}
use llm_agent_control_plane.Broker.Authority.{authorize_of_permits}
use llm_agent_control_plane.Simulator.{
  get_or, simulate_tool_execution, simulate_read_records, iterate,
}
use llm_agent_control_plane.Agent.{LlmAdapterResponse, to_model_turn_result}
use llm_agent_control_plane.Pipeline.State.{World, Clock, ControlPlanePipeline, log_then}
use llm_agent_control_plane.Pipeline.Protected.{
  executed, after_broker, brokered, after_filter, after_model, generated, run_protected,
}
use llm_agent_control_plane.Pipeline.Safety.{filtered_by}

-- The call or turn returns.
abbrev pub Returns {ℓ} : {A : Type ℓ} → Result A → Type ℓ
Returns {A = A} r = (x : A) × (r ≡ ok x)

abbrev is_ok {ℓ} : {A : Type ℓ} → Result A → Bool
is_ok (ok x) = true
is_ok (raised e) = false

Returns-of_ok {ℓ} : {A : Type ℓ} (r : Result A) → is_ok r ≡ true → Returns r
Returns-of_ok (ok x) h = (x, refl)
Returns-of_ok (raised e) h = absurd (cc h)

-- What pydantic's class makes sure of for read_records: the list of records, if given, is a list.
abbrev pub IsReadable : ToolCallPayload → Type 0
IsReadable t =
    t.tool_name ≡ "read_records"
    → (vs : Items) × (get_or "record_ids" (arr nil) t.arguments ≡ arr vs)

simulate-Returns :
    (request : AgentRequest) (t : ToolCallPayload)
    → IsReadable t
    → is_ok (simulate_tool_execution request t) ≡ true
unfolding simulate_tool_execution simulate_read_records iterate
simulate-Returns request t readable = elim (string_eq.dec t.tool_name "read_records") [
  | yes same ↦ let (vs, listed) = readable same in ground (arith, listed)
  | no differ ↦ ground arith
]

module _ (platform : Platform) (pipeline : ControlPlanePipeline) (policy : PolicyDocument)
    (clock : Clock) (request : AgentRequest) (w : World) (bare : request.approval_token ≡ none)
    (unsigned : pipeline.options.require_provenance_signature ≡ false) where
  gate-Returns :
      (tp : ToolPolicy) (t : ToolCallPayload)
      → is_ok (
          evaluate_approval_gate platform request tp t pipeline.options.require_approval_token
            clock.now w.used)
        ≡ true
  unfolding evaluate_approval_gate required_result
  gate-Returns tp t = ground arith

  authorize-Returns :
      (t : ToolCallPayload)
      → is_ok (authorize_tool platform pipeline.options request policy t clock.now w.used) ≡ true
  unfolding authorize_tool
  authorize-Returns t = elim (Bool-cases (evaluate_policy policy request t).allowed) [
    | inr refused ↦ rw refused refl
    | inl allowed ↦
        let p = (evaluate_policy_iff policy request t).0 allowed in
        let (g, answered) = Returns-of_ok _ (gate-Returns p.tool_policy t) in
        rw
          (
            authorize_of_permits platform pipeline.options request policy t clock.now w.used p,
            answered,
          )
          refl
  ]

  integrity-Returns :
      (origin : Option Provenance) (key : Bytes)
      → is_ok (
          verify_provenance_integrity platform origin key
            pipeline.options.require_provenance_signature)
        ≡ true
  unfolding verify_provenance_integrity
  integrity-Returns none key = refl
  integrity-Returns (some p) key = rw unsigned refl

  broker-Returns :
      (t : ToolCallPayload)
      → is_ok (broker_tool_request platform pipeline.options request policy t clock.now w.used)
        ≡ true
  unfolding broker_tool_request
  broker-Returns t = ground (
    arith,
    integrity-Returns t.provenance (hmac_key_of pipeline.options.provenance_hmac_key),
    authorize-Returns t,
  )

  after_filter-Returns :
      clock.audit_fault ≡ none
      → (text filtered : String) (o : Option ToolCallPayload)
      → ((t : ToolCallPayload) → o ≡ some t → IsReadable t)
      → is_ok (after_filter platform pipeline policy clock request text filtered o w).0 ≡ true
  unfolding after_filter brokered after_broker executed log_then write
  after_filter-Returns sound text filtered none readable = rw sound refl
  after_filter-Returns sound text filtered (some t) readable =
      ground (arith, sound, broker-Returns t, simulate-Returns request t (readable t refl))

  generated-Returns :
      clock.audit_fault ≡ none
      → (response : LlmAdapterResponse) → pipeline.llm_adapter.generate request ≡ ok response
      → ((t : ToolCallPayload) → response.tool_call ≡ some t → IsReadable t)
      → is_ok (run_protected platform pipeline policy clock request w).0 ≡ true
  unfolding run_protected generated to_model_turn_result after_model log_then write
  generated-Returns sound response produced readable = ground (
    arith,
    produced,
    sound,
    after_filter-Returns sound response.natural_language
        (filtered_by platform pipeline policy clock request w
          response.natural_language).filtered_text
        response.tool_call readable,
  )

-- A protected turn, with the load of the policy file, returns a result and lets no exception
-- through, if the policy file loads, the adapter answers, the audit file can be appended to, the
-- request carries no token, signatures are not required, and the arguments of read_records, if it
-- is called, have a list of records.
pub run_protected_at-Returns :
    (platform : Platform) (pipeline : ControlPlanePipeline) (policy : PolicyDocument)
    (clock : Clock) (request : AgentRequest) (w : World) (host : Host) (policy_path : String)
    → load_policy platform host policy_path ≡ ok policy
    → clock.audit_fault ≡ none
    → request.approval_token ≡ none
    → pipeline.options.require_provenance_signature ≡ false
    → (response : LlmAdapterResponse) → pipeline.llm_adapter.generate request ≡ ok response
    → ((t : ToolCallPayload) → response.tool_call ≡ some t → IsReadable t)
    → Returns (run_protected_at platform pipeline clock request host policy_path w).0
unfolding run_protected_at under_policy
run_protected_at-Returns platform pipeline policy clock request w host policy_path loaded sound bare
      unsigned response produced readable =
    rw loaded (
      Returns-of_ok _ (
        generated-Returns platform pipeline policy clock request w bare unsigned sound response
          produced readable))
