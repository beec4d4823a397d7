-- ===== src/Tests/ApiWitnesses.antt =====
-- The theorems about requests by HTTP, and about turns under a policy file, at concrete data.
use llm_agent_control_plane.Base.{
  pos, true, false, none, [], ◌≡◌, refl, ◌≢◌, ◌⊎◌, ok, raised, string_eq, option_eq, list_eq,
  is_space, starts_with, has_substring, strip,
}
use llm_agent_control_plane.Models.{
  PipelineResult, AgentRequest, ToolCallPayload, trust_eq, source_eq, source_value, get, strs,
}
use llm_agent_control_plane.Platform.{text_of}
use llm_agent_control_plane.Policy.{
  PolicyDocument, evaluate_policy, find_tool, validate_provenance_for_tool,
}
use llm_agent_control_plane.Policy.Loading.{
  load_policy, document_of, load_tools, tool_policy_of, tools_mapping, text_or,
}
use llm_agent_control_plane.Audit.{write}
use llm_agent_control_plane.Pipeline.State.{log_then}
use llm_agent_control_plane.Pipeline.{
  run_protected, run_protected_at, under_policy, Outcome, generated, after_model, after_filter,
  brokered, after_broker,
}
use llm_agent_control_plane.Agent.{run_simulated_agent, simulated_llm_adapter, create_llm_adapter}
use llm_agent_control_plane.Filter.{
  filter_output, decide_output, dedupe_findings, all_findings, text_findings,
  build_filter_context_from_request, pattern_findings, entropy_findings, tenant_marker_findings,
  classification_findings, source_sensitivity_findings, destination_eq, sensitivity_eq,
  should_block, highest_severity, primary_block_reason, output_filter_result, secret_patterns,
  private_key_pattern, jwt_pattern, base64_blob_pattern, high_entropy_token_pattern,
  tenant_marker_pattern, sensitive_classification_pattern, any_found, entropy_is_low, is_digits,
  looks_like_encoded_secret, redact_sample,
}
use llm_agent_control_plane.Regex.{search, find_all, hits, is_token_char}
use llm_agent_control_plane.Broker.{
  broker_tool_request, authorize_tool, hmac_key_of, tool_at, gated_decision,
}
use llm_agent_control_plane.Schemas.{
  validate_tool_call_payload, validate_tool_arguments, find_schema, tool_schemas,
}
use llm_agent_control_plane.Integrity.{verify_provenance_integrity}
use llm_agent_control_plane.Approval.{evaluate_approval_gate, required_result}
use llm_agent_control_plane.Simulator.{simulate_tool_execution}
use llm_agent_control_plane.Pipeline.Protected.{protected_result, executed}
use llm_agent_control_plane.Pipeline.Safety.{IsCleared}
use llm_agent_control_plane.Pipeline.Guarded.{IsHarnessed, run_protected_at-IsHarnessed}
use llm_agent_control_plane.Config.{
  is_empty, validate, errors_of, complain, mode_errors, production_errors,
}
use llm_agent_control_plane.Api.{
  agent_request, run_turn, post_run, respond, create_app, provenance_key_of, pipeline_of,
  create_llm_adapter_from_config, detail_response,
}
use llm_agent_control_plane.Api.Authentication.{
  IsWithinLimit, IsGarbled, IsTooLarge, IsAuthenticated, IsRefusedWith, post_run-cases,
}
use llm_agent_control_plane.Api.Authority.{IsGranted, run_turn-IsGranted}
use llm_agent_control_plane.Api.Construction.{IsServed, IsFailed, IsRefused, post_run-of_production}
use llm_agent_control_plane.Tests.Fixtures.{noon, empty_world}
use llm_agent_control_plane.Tests.Files.{
  digesting, digesting-IsSetOrder, files, files-Validates, accept, policy_on_file, tools_on_file,
}
use llm_agent_control_plane.Tests.PolicyWitnesses.{accepted}
use llm_agent_control_plane.Tests.Requests.{config, body, http, app}

app_is_created : create_app digesting files 3 config ≡ ok app
unfolding create_app provenance_key_of pipeline_of create_llm_adapter_from_config create_llm_adapter
    validate is_empty errors_of complain mode_errors production_errors string_eq
app_is_created = refl

post_run-cases_example :
    (IsWithinLimit digesting files noon (pos 1048576) http
      × IsAuthenticated digesting files noon config http
      × (post_run digesting files noon app http body empty_world
          ≡ respond digesting files noon app
              (run_turn digesting files noon app body none empty_world)))
    ⊎ (IsGarbled digesting files noon http
        × (post_run digesting files noon app http body empty_world
            ≡ (detail_response 400 "invalid_content_length", empty_world)))
    ⊎ (IsTooLarge digesting files noon (pos 1048576) http
        × IsRefusedWith digesting files noon config empty_world
            (detail_response 413 "request_entity_too_large")
            (post_run digesting files noon app http body empty_world))
    ⊎ (IsWithinLimit digesting files noon (pos 1048576) http
        × (¬ IsAuthenticated digesting files noon config http)
        × IsRefusedWith digesting files noon config empty_world
            (detail_response 401 "unauthorized")
            (post_run digesting files noon app http body empty_world))
post_run-cases_example = post_run-cases digesting files noon app http body empty_world

post_run-of_production_example :
    IsServed digesting files 3 config app noon http body empty_world
      (post_run digesting files noon app http body empty_world)
    ⊎ IsFailed digesting files 3 app noon http body empty_world
        (post_run digesting files noon app http body empty_world)
    ⊎ IsRefused digesting files 3 empty_world
        (post_run digesting files noon app http body empty_world)
post_run-of_production_example =
    post_run-of_production digesting files 3 config app app_is_created refl noon http body
      empty_world

abbrev request : AgentRequest
request = agent_request body none

abbrev outcome : Outcome PipelineResult
outcome = run_protected_at digesting app.pipeline noon request files "policy" empty_world

abbrev value : Outcome PipelineResult → PipelineResult
value (ok r, w) = r
value (raised e, w) = protected_result request false "" "" "" ""

abbrev result : PipelineResult
result = value outcome

outcome_returns : (outcome ≡ (ok result, outcome.1)) × (result.tool_executed ≡ true)
unfolding run_protected_at under_policy load_policy document_of load_tools tool_policy_of
    tools_mapping text_or text_of accept policy_on_file tools_on_file get strs agent_request
    run_protected generated after_model after_filter brokered after_broker run_simulated_agent
    simulated_llm_adapter filter_output decide_output dedupe_findings all_findings text_findings
    build_filter_context_from_request pattern_findings entropy_findings tenant_marker_findings
    classification_findings source_sensitivity_findings destination_eq sensitivity_eq should_block
    highest_severity primary_block_reason output_filter_result secret_patterns private_key_pattern
    jwt_pattern base64_blob_pattern high_entropy_token_pattern tenant_marker_pattern
    sensitive_classification_pattern any_found entropy_is_low is_digits looks_like_encoded_secret
    redact_sample search find_all hits is_token_char broker_tool_request authorize_tool hmac_key_of
    tool_at gated_decision validate_tool_call_payload validate_tool_arguments find_schema
    tool_schemas verify_provenance_integrity evaluate_policy find_tool validate_provenance_for_tool
    evaluate_approval_gate required_result simulate_tool_execution string_eq option_eq list_eq
    trust_eq source_eq is_space starts_with has_substring strip source_value executed
    protected_result log_then write
outcome_returns = (refl, refl)

run_protected_at-IsHarnessed_example :
    (policy : PolicyDocument) × (load_policy digesting files "policy" ≡ ok policy)
    × (t : ToolCallPayload) × IsCleared digesting app.pipeline policy noon request empty_world t
    × IsHarnessed digesting app.pipeline noon request empty_world policy t
run_protected_at-IsHarnessed_example =
    run_protected_at-IsHarnessed digesting app.pipeline noon request empty_world files "policy"
      "golden" files-Validates digesting-IsSetOrder accepted result outcome.1 outcome_returns

turn_executes :
    (run_turn digesting files noon app body none empty_world ≡ (ok result, outcome.1))
    × (result.tool_executed ≡ true)
unfolding run_turn string_eq
turn_executes = outcome_returns

run_turn-IsGranted_example :
    (body.path ≢ "vulnerable")
    × (policy : PolicyDocument) × (load_policy digesting files "policy" ≡ ok policy)
    × (t : ToolCallPayload) × IsGranted digesting files noon app body none empty_world policy t
    × (outcome.1.used ≡ [])
run_turn-IsGranted_example =
    run_turn-IsGranted digesting files noon app body none empty_world result outcome.1 turn_executes
