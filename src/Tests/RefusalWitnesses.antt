-- ===== src/Tests/RefusalWitnesses.antt =====
-- The theorems about refused and vulnerable turns, findings and identifiers, at concrete data.
use text.Mathlib.TextEquality.{eq_iff}
use llm_agent_control_plane.Filter.{OutputFinding, finding, default_filter_context}
use llm_agent_control_plane.Filter.Severity.{IsHighest, highest_severity-IsHighest}
use llm_agent_control_plane.Audit.{resolve_correlation_id}
use llm_agent_control_plane.Audit.Correlation.{IsBounded, resolve_correlation_id-IsBounded}
use llm_agent_control_plane.Base.{◌⊎◌, Result, os_error}
use llm_agent_control_plane.Pipeline.Injection.{
  run_protected-of_content, run_protected-of_foreign_target, run_protected-of_disabled,
}
use llm_agent_control_plane.Pipeline.Harmless.{Harmless, run_vulnerable-Harmless}
use llm_agent_control_plane.Pipeline.Registry.{IsExecuted, IsFinished, run_protected-used}
use llm_agent_control_plane.Tests.Fixtures.{run_shell, holds, stamped}
use llm_agent_control_plane.Base.{
  inl, ◌∷◌, arith, String, false, some, [], ◌≡◌, refl, ok, raised, string_eq, option_eq, list_eq,
  is_space, starts_with, has_substring, strip,
}
use llm_agent_control_plane.Models.{
  ToolCallPayload, PipelineResult, trust_eq, source_eq, source_value,
}
use llm_agent_control_plane.Audit.{write}
use llm_agent_control_plane.Pipeline.State.{log_then}
use llm_agent_control_plane.Pipeline.{
  Clock, run_vulnerable, run_protected, World, Outcome, generated, after_model, after_filter,
  brokered, after_broker,
}
use llm_agent_control_plane.Agent.{run_simulated_agent, simulated_llm_adapter}
use llm_agent_control_plane.Filter.{
  filter_output, decide_output, dedupe_findings, all_findings, text_findings,
  build_filter_context_from_request, pattern_findings, entropy_findings, tenant_marker_findings,
  classification_findings, source_sensitivity_findings, destination_eq, sensitivity_eq,
  should_block, highest_severity, primary_block_reason, output_filter_result, secret_patterns,
  private_key_pattern, jwt_pattern, base64_blob_pattern, high_entropy_token_pattern,
  tenant_marker_pattern, sensitive_classification_pattern, any_found, entropy_is_low, is_digits,
  looks_like_encoded_secret, redact_sample,
}
use llm_agent_control_plane.Regex.{search, find_all, hits, is_token_char}
use llm_agent_control_plane.Broker.{
  broker_tool_request, authorize_tool, hmac_key_of, tool_at, gated_decision,
}
use llm_agent_control_plane.Schemas.{
  validate_tool_call_payload, validate_tool_arguments, find_schema, tool_schemas,
}
use llm_agent_control_plane.Integrity.{verify_provenance_integrity}
use llm_agent_control_plane.Policy.{evaluate_policy, find_tool, validate_provenance_for_tool}
use llm_agent_control_plane.Approval.{evaluate_approval_gate, required_result}
use llm_agent_control_plane.Simulator.{simulate_tool_execution}
use llm_agent_control_plane.Tests.Fixtures.{lab, default_policy, demo, noon, empty_world, asks}
use llm_agent_control_plane.Models.{AgentRequest}
use llm_agent_control_plane.Pipeline.Protected.{protected_result, executed, consume_token}
use llm_agent_control_plane.Pipeline.Safety.{IsCleared}

abbrev outcome : AgentRequest → World → Outcome PipelineResult
outcome request w = run_protected lab demo default_policy noon request w

abbrev value : Outcome PipelineResult → PipelineResult
value (ok r, w) = r
value (raised e, w) = protected_result (asks "") false "" "" "" ""

abbrev injected_result : PipelineResult
injected_result = value (outcome (asks "injection_send_email") empty_world)

abbrev injected_world : World
injected_world = (outcome (asks "injection_send_email") empty_world).1

injected_returns :
    outcome (asks "injection_send_email") empty_world ≡ (ok injected_result, injected_world)
unfolding run_protected generated after_model after_filter brokered after_broker run_simulated_agent
    simulated_llm_adapter filter_output decide_output dedupe_findings all_findings text_findings
    build_filter_context_from_request pattern_findings entropy_findings tenant_marker_findings
    classification_findings source_sensitivity_findings destination_eq sensitivity_eq should_block
    highest_severity primary_block_reason output_filter_result secret_patterns private_key_pattern
    jwt_pattern base64_blob_pattern high_entropy_token_pattern tenant_marker_pattern
    sensitive_classification_pattern any_found entropy_is_low is_digits looks_like_encoded_secret
    redact_sample search find_all hits is_token_char broker_tool_request authorize_tool hmac_key_of
    tool_at gated_decision validate_tool_call_payload validate_tool_arguments find_schema
    tool_schemas verify_provenance_integrity evaluate_policy find_tool validate_provenance_for_tool
    evaluate_approval_gate required_result simulate_tool_execution string_eq option_eq list_eq
    trust_eq source_eq is_space starts_with has_substring strip source_value executed
    protected_result log_then write
injected_returns = refl

run_protected-of_content_example : injected_result.tool_executed ≡ false
unfolding run_simulated_agent simulated_llm_adapter string_eq
run_protected-of_content_example =
    run_protected-of_content lab demo default_policy noon (asks "injection_send_email") empty_world
      _ _ (_, refl, refl) refl (inl refl) injected_result injected_world injected_returns

abbrev foreign_result : PipelineResult
foreign_result = value (outcome (asks "cross_tenant_read") empty_world)

abbrev foreign_world : World
foreign_world = (outcome (asks "cross_tenant_read") empty_world).1

foreign_returns :
    outcome (asks "cross_tenant_read") empty_world ≡ (ok foreign_result, foreign_world)
unfolding run_protected generated after_model after_filter brokered after_broker run_simulated_agent
    simulated_llm_adapter filter_output decide_output dedupe_findings all_findings text_findings
    build_filter_context_from_request pattern_findings entropy_findings tenant_marker_findings
    classification_findings source_sensitivity_findings destination_eq sensitivity_eq should_block
    highest_severity primary_block_reason output_filter_result secret_patterns private_key_pattern
    jwt_pattern base64_blob_pattern high_entropy_token_pattern tenant_marker_pattern
    sensitive_classification_pattern any_found entropy_is_low is_digits looks_like_encoded_secret
    redact_sample search find_all hits is_token_char broker_tool_request authorize_tool hmac_key_of
    tool_at gated_decision validate_tool_call_payload validate_tool_arguments find_schema
    tool_schemas verify_provenance_integrity evaluate_policy find_tool validate_provenance_for_tool
    evaluate_approval_gate required_result simulate_tool_execution string_eq option_eq list_eq
    trust_eq source_eq is_space starts_with has_substring strip source_value executed
    protected_result log_then write
foreign_returns = refl

run_protected-of_foreign_target_example : foreign_result.tool_executed ≡ false
unfolding run_simulated_agent simulated_llm_adapter string_eq
run_protected-of_foreign_target_example =
    run_protected-of_foreign_target lab demo default_policy noon (asks "cross_tenant_read")
      empty_world _ (_, refl, refl) refl (ground (arith, eq_iff "tenant-other" "tenant-a"))
      foreign_result foreign_world foreign_returns

abbrev shell_result : PipelineResult
shell_result = value (outcome (asks "shell_attempt") empty_world)

abbrev shell_world : World
shell_world = (outcome (asks "shell_attempt") empty_world).1

shell_returns : outcome (asks "shell_attempt") empty_world ≡ (ok shell_result, shell_world)
unfolding run_protected generated after_model after_filter brokered after_broker run_simulated_agent
    simulated_llm_adapter filter_output decide_output dedupe_findings all_findings text_findings
    build_filter_context_from_request pattern_findings entropy_findings tenant_marker_findings
    classification_findings source_sensitivity_findings destination_eq sensitivity_eq should_block
    highest_severity primary_block_reason output_filter_result secret_patterns private_key_pattern
    jwt_pattern base64_blob_pattern high_entropy_token_pattern tenant_marker_pattern
    sensitive_classification_pattern any_found entropy_is_low is_digits looks_like_encoded_secret
    redact_sample search find_all hits is_token_char broker_tool_request authorize_tool hmac_key_of
    tool_at gated_decision validate_tool_call_payload validate_tool_arguments find_schema
    tool_schemas verify_provenance_integrity evaluate_policy find_tool validate_provenance_for_tool
    evaluate_approval_gate required_result simulate_tool_execution string_eq option_eq list_eq
    trust_eq source_eq is_space starts_with has_substring strip source_value executed
    protected_result log_then write
shell_returns = refl

run_protected-of_disabled_example : shell_result.tool_executed ≡ false
unfolding run_simulated_agent simulated_llm_adapter find_tool string_eq
run_protected-of_disabled_example =
    run_protected-of_disabled lab demo default_policy noon (asks "shell_attempt") empty_world _
      run_shell (_, refl, refl) refl refl shell_result shell_world shell_returns

-- A turn whose token is consumed and whose event cannot be written.
abbrev full_disk : Clock
full_disk = record noon { audit_fault = some "No space left on device" }

abbrev torn_world : World
torn_world = (run_protected lab demo default_policy full_disk holds empty_world).1

torn_raises :
    run_protected lab demo default_policy full_disk holds empty_world
    ≡ (raised (os_error "No space left on device"), torn_world)
unfolding run_protected generated after_model after_filter brokered after_broker run_simulated_agent
    simulated_llm_adapter filter_output decide_output dedupe_findings all_findings text_findings
    build_filter_context_from_request pattern_findings entropy_findings tenant_marker_findings
    classification_findings source_sensitivity_findings destination_eq sensitivity_eq should_block
    highest_severity primary_block_reason output_filter_result secret_patterns private_key_pattern
    jwt_pattern base64_blob_pattern high_entropy_token_pattern tenant_marker_pattern
    sensitive_classification_pattern any_found entropy_is_low is_digits looks_like_encoded_secret
    redact_sample search find_all hits is_token_char broker_tool_request authorize_tool hmac_key_of
    tool_at gated_decision validate_tool_call_payload validate_tool_arguments find_schema
    tool_schemas verify_provenance_integrity evaluate_policy find_tool validate_provenance_for_tool
    evaluate_approval_gate required_result simulate_tool_execution string_eq option_eq list_eq
    trust_eq source_eq is_space starts_with has_substring strip source_value executed
    protected_result log_then write
torn_raises = refl

abbrev torn : Result PipelineResult
torn = raised (os_error "No space left on device")

run_protected-used_example :
    ((¬ IsExecuted torn) × (torn_world.used ≡ []))
    ⊎ ((t : ToolCallPayload) × IsCleared lab demo default_policy full_disk holds empty_world t
        × IsFinished full_disk torn
        × (torn_world.used ≡ consume_token (some stamped) []))
run_protected-used_example =
    run_protected-used lab demo default_policy full_disk holds empty_world torn torn_world
      torn_raises

run_vulnerable-Harmless_example :
    Harmless noon "I will read records for this tenant." empty_world
      (run_vulnerable lab demo noon (asks "safe_read") empty_world)
unfolding run_simulated_agent simulated_llm_adapter string_eq
run_vulnerable-Harmless_example =
    run_vulnerable-Harmless lab demo noon (asks "safe_read") empty_world _ refl

abbrev medium_finding : OutputFinding
medium_finding = finding "a" "medium" "b" "c" default_filter_context "d"

abbrev high_finding : OutputFinding
high_finding = finding "a" "high" "b" "c" default_filter_context "d"

highest_severity-IsHighest_example :
    (s : String) × (highest_severity (medium_finding ∷ high_finding ∷ []) ≡ some s)
    × IsHighest (medium_finding ∷ high_finding ∷ []) s
highest_severity-IsHighest_example = highest_severity-IsHighest medium_finding (high_finding ∷ [])

abbrev traced : AgentRequest
traced = record (asks "safe_read") { correlation_id = some " trace-1 " }

resolve_correlation_id-IsBounded_example :
    (resolve_correlation_id traced ≡ "req-1") ⊎ IsBounded (resolve_correlation_id traced)
resolve_correlation_id-IsBounded_example = resolve_correlation_id-IsBounded traced
