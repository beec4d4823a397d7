-- ===== src/Policy/Loading.antt =====
-- src/agent_control_plane/policy_engine.py: `load_policy`.
pub mod Soundness
use llm_agent_control_plane.Base.{
  String, Bool, true, false, not, Option, none, some, List, [], ◌∷◌, Result, ok, raised, ◌>>=◌,
  validation_error, if◌then◌else◌,
}
use llm_agent_control_plane.Models.{Value, Fields, obj, end, field, get}
use llm_agent_control_plane.Platform.{Platform, text_of}
use llm_agent_control_plane.Host.{Host}
use llm_agent_control_plane.Policy.Types.{ToolPolicy, PolicyDocument}

-- `PolicyDocument(default_decision="deny", tools={})`
unfoldable pub deny_all : PolicyDocument
deny_all = record { default_decision = "deny"; tools = []; tenant_isolation = "strict" }

-- `str(raw.get(key, default))`
unfoldable pub text_or : Platform → String → String → Fields → String
text_or platform key default raw = elim (get key raw) [
  | none ↦ default
  | some v ↦ text_of platform v
]

-- `ToolPolicy.model_validate(cfg)`
unfoldable pub tool_policy_of : Host → Fields → Result ToolPolicy
tool_policy_of host cfg = elim (host.model_validate cfg) [
  | none ↦ raised (validation_error "ToolPolicy")
  | some tool_policy ↦ ok tool_policy
]

-- The loop over `tools_raw.items()`, which passes over entries that are not mappings.
unfoldable pub load_tools : Host → Fields → Result (List (String × ToolPolicy))
load_tools host end = ok []
load_tools host (field name (obj cfg) rest) = do
  tool_policy ← tool_policy_of host cfg
  tools ← load_tools host rest
  ok ((name, tool_policy) ∷ tools)
load_tools host (field name v rest) = load_tools host rest

-- The value of the key "tools", if it is a mapping.
unfoldable pub tools_mapping : Option Value → Fields
tools_mapping (some (obj tools_raw)) = tools_raw
tools_mapping v = end

unfoldable pub document_of : Platform → Host → Value → Result PolicyDocument
unfolding deny_all text_or tools_mapping
document_of platform host (obj raw) = do
  tools ← load_tools host (tools_mapping (get "tools" raw))
  ok (record {
    default_decision = text_or platform "default_decision" "deny" raw;
    tools = tools;
    tenant_isolation = text_or platform "tenant_isolation" "strict" raw;
  })
document_of platform host v = ok deny_all

-- `load_policy`
unfoldable pub load_policy : Platform → Host → String → Result PolicyDocument
unfolding deny_all
load_policy platform host path =
    if not (host.is_file path)
    then ok deny_all
    else do text ← host.read_text path; raw ← host.safe_load text; document_of platform host raw
