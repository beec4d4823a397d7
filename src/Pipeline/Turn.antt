-- ===== src/Pipeline/Turn.antt =====
-- src/agent_control_plane/pipeline.py: `run_protected` with the policy file that it reads first.
use llm_agent_control_plane.Base.{String, Result, ok, raised}
use llm_agent_control_plane.Models.{AgentRequest, PipelineResult}
use llm_agent_control_plane.Platform.{Platform}
use llm_agent_control_plane.Host.{Host}
use llm_agent_control_plane.Policy.{PolicyDocument}
use llm_agent_control_plane.Policy.Loading.{load_policy}
use llm_agent_control_plane.Pipeline.State.{World, Clock, ControlPlanePipeline, Outcome}
use llm_agent_control_plane.Pipeline.Protected.{run_protected}

module _ (platform : Platform) (pipeline : ControlPlanePipeline) (clock : Clock)
    (request : AgentRequest) where
  unfoldable pub under_policy : Result PolicyDocument → World → Outcome PipelineResult
  under_policy (ok policy) w = run_protected platform pipeline policy clock request w
  under_policy (raised e) w = (raised e, w)

  -- `policy = load_policy(self._policy_path)`, then the rest.
  unfoldable pub run_protected_at : Host → String → World → Outcome PipelineResult
  unfolding under_policy
  run_protected_at host policy_path w = under_policy (load_policy platform host policy_path) w
