-- ===== src/Agent/Core.antt =====
-- src/agent_control_plane/agent_core.py: `run_simulated_agent`. The prompt that it assembles is
-- dropped by the source.
use llm_agent_control_plane.Base.{◌==◌, string_eq, if◌then◌else◌}
use llm_agent_control_plane.Models.{AgentRequest, ModelTurnResult}
use llm_agent_control_plane.Platform.{Platform}
use llm_agent_control_plane.Agent.Scenarios

unfoldable pub run_simulated_agent : Platform → AgentRequest → ModelTurnResult
unfolding Scenarios.safe_read Scenarios.injection_send_email Scenarios.shell_attempt
    Scenarios.export_no_approval Scenarios.send_email_approved Scenarios.internal_reviewed_read
    Scenarios.export_approved Scenarios.output_secret_leak Scenarios.cross_tenant_read
    Scenarios.missing_provenance Scenarios.unknown_tool Scenarios.invalid_schema
    Scenarios.tool_output_injection_send_email Scenarios.tool_output_injection_shell
    Scenarios.tool_output_cross_tenant Scenarios.strict_signed_read
    Scenarios.tool_output_echo_secret Scenarios.unknown_scenario
run_simulated_agent platform request =
    let scenario = request.scenario in
    if scenario == "safe_read"
    then Scenarios.safe_read request
    else if scenario == "injection_send_email"
    then Scenarios.injection_send_email request
    else if scenario == "shell_attempt"
    then Scenarios.shell_attempt request
    else if scenario == "export_no_approval"
    then Scenarios.export_no_approval request
    else if scenario == "send_email_approved"
    then Scenarios.send_email_approved request
    else if scenario == "internal_reviewed_read"
    then Scenarios.internal_reviewed_read request
    else if scenario == "export_approved"
    then Scenarios.export_approved request
    else if scenario == "output_secret_leak"
    then Scenarios.output_secret_leak request
    else if scenario == "cross_tenant_read"
    then Scenarios.cross_tenant_read request
    else if scenario == "missing_provenance"
    then Scenarios.missing_provenance request
    else if scenario == "unknown_tool"
    then Scenarios.unknown_tool request
    else if scenario == "invalid_schema"
    then Scenarios.invalid_schema request
    else if scenario == "tool_output_injection_send_email"
    then Scenarios.tool_output_injection_send_email request
    else if scenario == "tool_output_injection_shell"
    then Scenarios.tool_output_injection_shell request
    else if scenario == "tool_output_cross_tenant"
    then Scenarios.tool_output_cross_tenant request
    else if scenario == "strict_signed_read"
    then Scenarios.strict_signed_read platform request
    else if scenario == "tool_output_echo_secret"
    then Scenarios.tool_output_echo_secret request
    else Scenarios.unknown_scenario request
