-- ===== src/Policy/Types.antt =====
-- src/agent_control_plane/policy_types.py
use llm_agent_control_plane.Base.{
  String, Bool, Option, none, some, List, [], ◌∷◌, ◌==◌, string_eq, if◌then◌else◌,
}
use llm_agent_control_plane.Models.{RiskLevel}

-- `ToolPolicy`
pub record ToolPolicy : Type 0 where
  pub enabled : Bool
  pub risk_level : RiskLevel
  pub external_effect : Bool
  pub destructive : Bool
  pub requires_human_approval : Bool
  pub allowed_roles : List String

-- `PolicyDocument`
pub record PolicyDocument : Type 0 where
  pub default_decision : String
  pub tools : List (String × ToolPolicy)
  pub tenant_isolation : String

-- `tools.get(name)`
unfoldable pub find_tool : String → List (String × ToolPolicy) → Option ToolPolicy
find_tool name [] = none
find_tool name ((k, p) ∷ tools) = if k == name then some p else find_tool name tools
