-- ===== src/Approval/Fingerprint.antt =====
-- src/agent_control_plane/approval_tokens.py: the material that a token is bound to.
use llm_agent_control_plane.Base.{String, Option, none, some, List, []}
use llm_agent_control_plane.Models.{
  AgentRequest, ToolCallPayload, Provenance, ApprovalRequestFingerprint, Value, null, str, arr, obj,
  end, field, strs, opt_str,
}
use llm_agent_control_plane.Platform.{Platform}
use llm_agent_control_plane.Json.{sorted, canonical_json, sorted_json}
use llm_agent_control_plane.Integrity.{canonicalize_provenance}

-- `sorted(provenance.context_ids) if provenance else []`
unfoldable pub sorted_context_ids : Option Provenance → List String
sorted_context_ids none = []
sorted_context_ids (some p) = sorted p.context_ids

unfoldable pub provenance_payload : Option Provenance → Value
unfolding canonicalize_provenance
provenance_payload none = obj (field "provenance" null end)
provenance_payload (some p) = canonicalize_provenance p

-- `_action_label`
unfoldable pub action_label : ToolCallPayload → String
action_label t =
    canonical_json
      (obj (field "tool_name" (str t.tool_name) (field "arguments" (obj t.arguments) end)))

module _ (platform : Platform) where
  -- `compute_provenance_fingerprint`
  unfoldable pub compute_provenance_fingerprint : Option Provenance → String
  unfolding provenance_payload
  compute_provenance_fingerprint p = platform.sha256_hex (canonical_json (provenance_payload p))

  -- `_canonical_action_payload`
  unfoldable pub canonical_action_payload : AgentRequest → ToolCallPayload → String → Value
  canonical_action_payload request t risk_level = obj (
      field "user_id" (str request.user_id) (
        field "tenant_id" (str request.tenant_id) (
          field "tool_name" (str t.tool_name) (
            field "target" (opt_str t.target) (
              field "action" (str (action_label t)) (
                field "risk_level" (str risk_level) (
                  field "source_context_ids" (arr (strs (sorted_context_ids t.provenance))) (
                    field "provenance_fingerprint"
                      (str (compute_provenance_fingerprint t.provenance)) end))))))))

  -- `compute_action_fingerprint`
  unfoldable pub compute_action_fingerprint : AgentRequest → ToolCallPayload → String → String
  compute_action_fingerprint request t risk_level =
      platform.sha256_hex (sorted_json (canonical_action_payload request t risk_level))

  -- `build_approval_fingerprint`
  unfoldable pub build_approval_fingerprint :
      AgentRequest → ToolCallPayload → String → ApprovalRequestFingerprint
  build_approval_fingerprint request t risk_level = record {
    user_id = request.user_id;
    tenant_id = request.tenant_id;
    tool_name = t.tool_name;
    target = t.target;
    action = action_label t;
    risk_level = risk_level;
    source_context_ids = sorted_context_ids t.provenance;
    provenance_fingerprint = compute_provenance_fingerprint t.provenance;
    action_fingerprint =
        platform.sha256_hex (sorted_json (canonical_action_payload request t risk_level));
  }
