-- ===== src/Tests/Runs.antt =====
-- The scenarios of agent_core.py through the protected path.
use llm_agent_control_plane.Base.{
  String, Bool, true, false, Option, none, some, ◌≡◌, refl, ok, raised, string_eq, option_eq,
  list_eq, is_space, starts_with, has_substring, strip,
}
use llm_agent_control_plane.Models.{PipelineResult, trust_eq, source_eq, source_value}
use llm_agent_control_plane.Audit.{write}
use llm_agent_control_plane.Pipeline.State.{log_then}
use llm_agent_control_plane.Pipeline.{
  run_protected, Outcome, generated, after_model, after_filter, brokered, after_broker,
}
use llm_agent_control_plane.Agent.{run_simulated_agent, simulated_llm_adapter}
use llm_agent_control_plane.Filter.{
  filter_output, decide_output, dedupe_findings, all_findings, text_findings,
  build_filter_context_from_request, pattern_findings, entropy_findings, tenant_marker_findings,
  classification_findings, source_sensitivity_findings, destination_eq, sensitivity_eq,
  should_block, highest_severity, primary_block_reason, output_filter_result, secret_patterns,
  private_key_pattern, jwt_pattern, base64_blob_pattern, high_entropy_token_pattern,
  tenant_marker_pattern, sensitive_classification_pattern, any_found, entropy_is_low, is_digits,
  looks_like_encoded_secret, redact_sample,
}
use llm_agent_control_plane.Regex.{search, find_all, hits, is_token_char}
use llm_agent_control_plane.Broker.{
  broker_tool_request, authorize_tool, hmac_key_of, tool_at, gated_decision,
}
use llm_agent_control_plane.Schemas.{
  validate_tool_call_payload, validate_tool_arguments, find_schema, tool_schemas,
}
use llm_agent_control_plane.Integrity.{verify_provenance_integrity}
use llm_agent_control_plane.Policy.{evaluate_policy, find_tool, validate_provenance_for_tool}
use llm_agent_control_plane.Approval.{evaluate_approval_gate, required_result}
use llm_agent_control_plane.Simulator.{simulate_tool_execution}
use llm_agent_control_plane.Tests.Fixtures.{lab, default_policy, demo, noon, empty_world, asks}

-- The verdict, stage and reason of a run.
abbrev Summary : Type 0
Summary = Option (Bool × String × String × Bool)

abbrev summary : Outcome PipelineResult → Summary
summary (ok r, w) = some (r.allowed, r.stage, r.reason, r.tool_executed)
summary (raised e, w) = none

run : String → Summary
unfolding run_protected generated after_model after_filter brokered after_broker run_simulated_agent
    simulated_llm_adapter filter_output decide_output dedupe_findings all_findings text_findings
    build_filter_context_from_request pattern_findings entropy_findings tenant_marker_findings
    classification_findings source_sensitivity_findings destination_eq sensitivity_eq should_block
    highest_severity primary_block_reason output_filter_result secret_patterns private_key_pattern
    jwt_pattern base64_blob_pattern high_entropy_token_pattern tenant_marker_pattern
    sensitive_classification_pattern any_found entropy_is_low is_digits looks_like_encoded_secret
    redact_sample search find_all hits is_token_char broker_tool_request authorize_tool hmac_key_of
    tool_at gated_decision validate_tool_call_payload validate_tool_arguments find_schema
    tool_schemas verify_provenance_integrity evaluate_policy find_tool validate_provenance_for_tool
    evaluate_approval_gate required_result simulate_tool_execution string_eq option_eq list_eq
    trust_eq source_eq is_space starts_with has_substring strip source_value log_then write
run scenario = summary (run_protected lab demo default_policy noon (asks scenario) empty_world)

safe_read_runs :
    run "safe_read" ≡ some (true, "simulation", "explicit_allow_after_policy_checks", true)
unfolding run
safe_read_runs = refl

others :
    (run "injection_send_email"
      ≡ some (false, "tool_broker", "retrieved_cannot_authorize_tool_execution", false))
    × (run "shell_attempt" ≡ some (false, "tool_broker", "tool_disabled_by_policy", false))
    × (run "output_secret_leak" ≡ some (false, "output_filter", "secret_pattern_blocked", false))
    × (run "cross_tenant_read" ≡ some (false, "tool_broker", "cross_tenant_target_denied", false))
    × (run "unknown_tool"
        ≡ some (false, "schema_validation", "unknown_tool_schema:deploy_malware", false))
    × (run "missing_provenance" ≡ some (false, "tool_broker", "missing_provenance_denied", false))
    × (run "send_email_approved"
        ≡ some (false, "tool_broker", "human_approval_required_for_high_impact_action", false))
    × (run "nothing" ≡ some (true, "complete", "no_tool_call", false))
unfolding run
others = (refl, refl, refl, refl, refl, refl, refl, refl)
