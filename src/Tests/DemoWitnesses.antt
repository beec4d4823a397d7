-- ===== src/Tests/DemoWitnesses.antt =====
-- The theorem about the demo under the repository's own policy file.
use llm_agent_control_plane.Base.{◌≡◌, ok}
use llm_agent_control_plane.Policy.Loading.{load_policy}
use llm_agent_control_plane.Policy.{PolicyDocument}
use llm_agent_control_plane.Policy.Loading.Soundness.{IsSafePolicy, load_policy-IsSafePolicy}
use llm_agent_control_plane.Demo.{hostile_scenarios, run_scripted}
use llm_agent_control_plane.Demo.Safety.{AllIdle, lab_pipeline, hostile-AllIdle}
use llm_agent_control_plane.Tests.Fixtures.{lax, noon}
use llm_agent_control_plane.Tests.Files.{digesting, files, files-Validates, policy_on_file}
use llm_agent_control_plane.Tests.PolicyWitnesses.{raw_loaded, sound_file}

loaded_policy :
    (policy : PolicyDocument) × (load_policy digesting files "policy" ≡ ok policy)
    × IsSafePolicy policy
loaded_policy =
    load_policy-IsSafePolicy digesting files "policy" files-Validates policy_on_file raw_loaded
      sound_file

hostile-AllIdle_example :
    AllIdle
      (run_scripted digesting files (lab_pipeline digesting lax 3) "policy" noon)
      hostile_scenarios
hostile-AllIdle_example =
    hostile-AllIdle digesting files lax 3 noon "policy" loaded_policy.0 loaded_policy.1
      loaded_policy.2
