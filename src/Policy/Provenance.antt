-- ===== src/Policy/Provenance.antt =====
-- src/agent_control_plane/provenance.py: which declared origins may support a tool request.
use llm_agent_control_plane.Base.{
  ◌<>◌, true, false, ◌||◌, Option, none, some, List, [], ◌∷◌, ◌==◌, contains, Verdict,
  if◌then◌else◌,
}
use llm_agent_control_plane.Models.{
  Provenance, ProvenanceSource, source_value, source_eq, trust_eq, untrusted, user, model,
  retrieved, tool_output, system, external, web, email, support_ticket, internal_reviewed,
}
use llm_agent_control_plane.Policy.Types.{ToolPolicy}

-- `_SOURCES_CANNOT_AUTHORIZE`
abbrev pub sources_cannot_authorize : List ProvenanceSource
sources_cannot_authorize =
    user ∷ retrieved ∷ tool_output ∷ external ∷ web ∷ email ∷ support_ticket ∷ []

validate_declared : ToolPolicy → Provenance → Verdict
unfolding source_value
validate_declared tool_policy p =
    if contains sources_cannot_authorize p.source
    then (false, source_value p.source <> "_cannot_authorize_tool_execution")
    else if p.trust == untrusted
    then (false, "untrusted_provenance_denied")
    else if p.source == internal_reviewed
    then if tool_policy.external_effect || tool_policy.destructive
      then (false, "internal_reviewed_cannot_authorize_external_or_destructive")
      else (true, "internal_reviewed_provenance_allowed")
    else if contains (model ∷ system ∷ []) p.source
    then (true, "provenance_allowed")
    else (false, "provenance_source_not_permitted")

-- `validate_provenance_for_tool`
unfoldable pub validate_provenance_for_tool : ToolPolicy → Option Provenance → Verdict
unfolding validate_declared
validate_provenance_for_tool tool_policy none = (false, "missing_provenance_denied")
validate_provenance_for_tool tool_policy (some p) = validate_declared tool_policy p
