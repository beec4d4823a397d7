-- ===== src/Tests/SessionWitnesses.antt =====
-- The theorems about sessions and about turns that return at concrete data.
use mathlib.Core.Option.{some-injective}
use llm_agent_control_plane.Base.{
  ◌≤◌, none, String, List, [], ◌∷◌, refl, sym, string_eq, option_eq, list_eq,
}
use llm_agent_control_plane.Models.{trust_eq, source_eq, get, strs}
use llm_agent_control_plane.Agent.{run_simulated_agent, simulated_llm_adapter}
use llm_agent_control_plane.Filter.{destination_eq, sensitivity_eq}
use llm_agent_control_plane.Simulator.{get_or}
use llm_agent_control_plane.Pipeline.Replay.{Turn}
use llm_agent_control_plane.Pipeline.Monitor.{Event, Moves, spent_in, openings}
use llm_agent_control_plane.Pipeline.Monitor.Refinement.{AllExplained, after_turns, session_refines}
use llm_agent_control_plane.Pipeline.Returns.{Returns, run_protected_at-Returns}
use llm_agent_control_plane.Models.{AgentRequest}
use llm_agent_control_plane.Platform.{text_of}
use llm_agent_control_plane.Pipeline.{run_protected_at}
use llm_agent_control_plane.Policy.Loading.{
  load_policy, document_of, load_tools, tool_policy_of, tools_mapping, text_or,
}
use llm_agent_control_plane.Api.{agent_request}
use llm_agent_control_plane.Tests.Files.{digesting, files, accept, policy_on_file, tools_on_file}
use llm_agent_control_plane.Tests.Requests.{body, app}
use llm_agent_control_plane.Tests.Fixtures.{noon, empty_world, demo, default_policy, holds, lab}

abbrev request : AgentRequest
request = agent_request body none

abbrev holder : Turn lab
holder = record { pipeline = demo; policy = default_policy; clock = noon; request = holds }

session_refines_example :
    (es : List Event) × AllExplained lab (holder ∷ holder ∷ []) empty_world es
    × Moves es (spent_in []) (spent_in (after_turns lab (holder ∷ holder ∷ []) empty_world).used)
    × ((id : String) → openings id es ≤ 1)
session_refines_example = session_refines lab (holder ∷ holder ∷ []) empty_world

run_protected_at-Returns_example :
    Returns (run_protected_at digesting app.pipeline noon request files "policy" empty_world).0
unfolding load_policy document_of load_tools tool_policy_of tools_mapping text_or text_of accept
    policy_on_file tools_on_file get strs string_eq simulated_llm_adapter run_simulated_agent get_or
    agent_request
run_protected_at-Returns_example =
    run_protected_at-Returns digesting app.pipeline _ noon request empty_world files "policy" refl
      refl refl refl _ refl (λ t e _. (strs ("r-100" ∷ []), rw (sym (some-injective _ t e)) refl))
