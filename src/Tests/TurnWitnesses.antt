-- ===== src/Tests/TurnWitnesses.antt =====
-- The theorems about turns at concrete turns.
use llm_agent_control_plane.Base.{
  ◌⊎◌, none, os_error, arith, String, ◌<>◌, true, false, some, [], ◌≡◌, refl, ok, raised, string_eq,
  option_eq, list_eq, is_space, starts_with, has_substring, strip,
}
use llm_agent_control_plane.Models.{PipelineResult, trust_eq, source_eq, source_value}
use llm_agent_control_plane.Audit.{write}
use llm_agent_control_plane.Pipeline.State.{log_then}
use llm_agent_control_plane.Pipeline.{
  ControlPlanePipeline, run_protected, World, Outcome, generated, after_model, after_filter,
  brokered, after_broker,
}
use llm_agent_control_plane.Agent.{run_simulated_agent, simulated_llm_adapter}
use llm_agent_control_plane.Filter.{
  filter_output, decide_output, dedupe_findings, all_findings, text_findings,
  build_filter_context_from_request, pattern_findings, entropy_findings, tenant_marker_findings,
  classification_findings, source_sensitivity_findings, destination_eq, sensitivity_eq,
  should_block, highest_severity, primary_block_reason, output_filter_result, secret_patterns,
  private_key_pattern, jwt_pattern, base64_blob_pattern, high_entropy_token_pattern,
  tenant_marker_pattern, sensitive_classification_pattern, any_found, entropy_is_low, is_digits,
  looks_like_encoded_secret, redact_sample,
}
use llm_agent_control_plane.Regex.{search, find_all, hits, is_token_char}
use llm_agent_control_plane.Broker.{
  broker_tool_request, authorize_tool, hmac_key_of, tool_at, gated_decision,
}
use llm_agent_control_plane.Schemas.{
  validate_tool_call_payload, validate_tool_arguments, find_schema, tool_schemas,
}
use llm_agent_control_plane.Integrity.{verify_provenance_integrity}
use llm_agent_control_plane.Policy.{evaluate_policy, find_tool, validate_provenance_for_tool}
use llm_agent_control_plane.Approval.{evaluate_approval_gate, required_result}
use llm_agent_control_plane.Simulator.{simulate_tool_execution}
use llm_agent_control_plane.Tests.Fixtures.{
  lab, default_policy, demo, noon, empty_world, asks, strict, reads,
}
use llm_agent_control_plane.Models.{AgentRequest}
use llm_agent_control_plane.Approval.GateLaws.{NeedsNone}
use llm_agent_control_plane.Pipeline.Protected.{protected_result, executed, consume_token}
use llm_agent_control_plane.Pipeline.Safety.{
  IsCleared, run_protected-IsCleared, IsCleared-run_protected,
}
use llm_agent_control_plane.Pipeline.Telling.{Audited}
use llm_agent_control_plane.Pipeline.AuditTrail.{run_protected-Audited}
use llm_agent_control_plane.Pipeline.Replay.{Turn, here, no_replay}
use llm_agent_control_plane.Pipeline.Leaks.{StoppedByFilter, run_protected-of_secret}
use llm_agent_control_plane.Agent.{LlmAdapterResponse}
use llm_agent_control_plane.Tests.Witnesses.{authorized}
use llm_agent_control_plane.Tests.Fixtures.{holds, stamped}

abbrev outcome : AgentRequest → World → Outcome PipelineResult
outcome request w = run_protected lab demo default_policy noon request w

abbrev value : Outcome PipelineResult → PipelineResult
value (ok r, w) = r
value (raised e, w) = protected_result holds false "" "" "" ""

-- The request with a token is executed, and the token is consumed.
abbrev first_result : PipelineResult
first_result = value (outcome holds empty_world)

abbrev first_world : World
first_world = (outcome holds empty_world).1

first_returns :
    (outcome holds empty_world ≡ (ok first_result, first_world))
    × (first_result.tool_executed ≡ true)
unfolding run_protected generated after_model after_filter brokered after_broker run_simulated_agent
    simulated_llm_adapter filter_output decide_output dedupe_findings all_findings text_findings
    build_filter_context_from_request pattern_findings entropy_findings tenant_marker_findings
    classification_findings source_sensitivity_findings destination_eq sensitivity_eq should_block
    highest_severity primary_block_reason output_filter_result secret_patterns private_key_pattern
    jwt_pattern base64_blob_pattern high_entropy_token_pattern tenant_marker_pattern
    sensitive_classification_pattern any_found entropy_is_low is_digits looks_like_encoded_secret
    redact_sample search find_all hits is_token_char broker_tool_request authorize_tool hmac_key_of
    tool_at gated_decision validate_tool_call_payload validate_tool_arguments find_schema
    tool_schemas verify_provenance_integrity evaluate_policy find_tool validate_provenance_for_tool
    evaluate_approval_gate required_result simulate_tool_execution string_eq option_eq list_eq
    trust_eq source_eq is_space starts_with has_substring strip source_value executed
    protected_result log_then write
first_returns = (refl, refl)

run_protected-IsCleared_example :
    (t : _) × (c : IsCleared lab demo default_policy noon holds empty_world t)
    × (first_result.simulation ≡ some c.simulation)
    × (first_world.used ≡ consume_token (some stamped) [])
run_protected-IsCleared_example =
    run_protected-IsCleared lab demo default_policy noon holds empty_world first_result first_world
      first_returns.0 first_returns.1

-- Once more, with the same token: reading needs no approval.
abbrev second_result : PipelineResult
second_result = value (outcome holds first_world)

abbrev second_world : World
second_world = (outcome holds first_world).1

second_returns :
    (outcome holds first_world ≡ (ok second_result, second_world))
    × (second_result.tool_executed ≡ true)
unfolding run_protected generated after_model after_filter brokered after_broker run_simulated_agent
    simulated_llm_adapter filter_output decide_output dedupe_findings all_findings text_findings
    build_filter_context_from_request pattern_findings entropy_findings tenant_marker_findings
    classification_findings source_sensitivity_findings destination_eq sensitivity_eq should_block
    highest_severity primary_block_reason output_filter_result secret_patterns private_key_pattern
    jwt_pattern base64_blob_pattern high_entropy_token_pattern tenant_marker_pattern
    sensitive_classification_pattern any_found entropy_is_low is_digits looks_like_encoded_secret
    redact_sample search find_all hits is_token_char broker_tool_request authorize_tool hmac_key_of
    tool_at gated_decision validate_tool_call_payload validate_tool_arguments find_schema
    tool_schemas verify_provenance_integrity evaluate_policy find_tool validate_provenance_for_tool
    evaluate_approval_gate required_result simulate_tool_execution string_eq option_eq list_eq
    trust_eq source_eq is_space starts_with has_substring strip source_value executed
    protected_result log_then write
second_returns = (refl, refl)

abbrev holder : Turn lab
holder = record { pipeline = demo; policy = default_policy; clock = noon; request = holds }

no_replay_example :
    (t : _) × (c : IsCleared lab demo default_policy noon holds first_world t) × NeedsNone
      c.authorized.permitted.tool_policy
no_replay_example =
    no_replay lab holder empty_world first_result first_world stamped refl first_returns.0
      first_returns.1 first_world here holder second_result second_world stamped refl refl
      second_returns.0 second_returns.1

run_protected-Audited_example :
    Audited noon (asks "shell_attempt") empty_world (outcome (asks "shell_attempt") empty_world)
run_protected-Audited_example =
    run_protected-Audited lab demo default_policy noon (asks "shell_attempt") empty_world

-- An adapter that asks for a tool, whatever it says.
abbrev answer : String → LlmAdapterResponse
answer says = record {
  natural_language = says;
  tool_call = some reads;
  metadata = record { provider_name = "p"; model_name = "m"; is_simulated = true; latency_ms = 1 };
}

abbrev scripted : String → ControlPlanePipeline
scripted says = record {
  options = strict;
  llm_adapter = record { generate = λ request. ok (answer says) };
}

abbrev read_outcome : Outcome PipelineResult
read_outcome =
    run_protected lab (scripted "I will read.") default_policy noon (asks "safe_read") empty_world

IsCleared-run_protected_example :
    (read_outcome.1.used ≡ [])
    × (((noon.audit_fault ≡ none)
          × (r : PipelineResult) × (read_outcome.0 ≡ ok r)
          × (r.tool_executed ≡ true))
        ⊎ ((message : String) × (noon.audit_fault ≡ some message)
            × (read_outcome.0 ≡ raised (os_error message))))
unfolding run_protected generated after_model after_filter brokered after_broker run_simulated_agent
    simulated_llm_adapter filter_output decide_output dedupe_findings all_findings text_findings
    build_filter_context_from_request pattern_findings entropy_findings tenant_marker_findings
    classification_findings source_sensitivity_findings destination_eq sensitivity_eq should_block
    highest_severity primary_block_reason output_filter_result secret_patterns private_key_pattern
    jwt_pattern base64_blob_pattern high_entropy_token_pattern tenant_marker_pattern
    sensitive_classification_pattern any_found entropy_is_low is_digits looks_like_encoded_secret
    redact_sample search find_all hits is_token_char broker_tool_request authorize_tool hmac_key_of
    tool_at gated_decision validate_tool_call_payload validate_tool_arguments find_schema
    tool_schemas verify_provenance_integrity evaluate_policy find_tool validate_provenance_for_tool
    evaluate_approval_gate required_result simulate_tool_execution string_eq option_eq list_eq
    trust_eq source_eq is_space starts_with has_substring strip source_value executed
    protected_result log_then write
IsCleared-run_protected_example =
    IsCleared-run_protected lab (scripted "I will read.") default_policy noon (asks "safe_read")
      empty_world reads
      (record {
        response = answer "I will read.";
        produced = refl;
        requested = refl;
        clean = refl;
        authorized = authorized;
        simulation = _;
        simulated = refl;
      })

abbrev secret_outcome : Outcome PipelineResult
secret_outcome =
    run_protected lab (scripted ("Here: " <> ("sk-" <> "0123456789abcdefghij."))) default_policy
      noon holds empty_world

run_protected-of_secret_example :
    ((noon.audit_fault ≡ none)
      × (r : PipelineResult) × (w' : World) × (secret_outcome ≡ (ok r, w'))
      × StoppedByFilter r ("Here: " <> ("sk-" <> "0123456789abcdefghij."))
      × (w'.used ≡ []))
    ⊎ ((message : String) × (noon.audit_fault ≡ some message)
        × (secret_outcome ≡ (raised (os_error message), empty_world)))
unfolding is_token_char
run_protected-of_secret_example =
    run_protected-of_secret lab (scripted ("Here: " <> ("sk-" <> "0123456789abcdefghij.")))
      default_policy noon holds empty_world _ "Here: " "0123456789abcdefghij." refl refl
      (ground arith)
