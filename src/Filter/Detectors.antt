-- ===== src/Filter/Detectors.antt =====
-- src/agent_control_plane/output_filter.py: the functions that produce findings.
use llm_agent_control_plane.Base.{
  String, ◌<>◌, Bool, false, ◌||◌, not, Option, none, some, List, [], ◌∷◌, ◌++◌, ◌!=◌, contains,
  string_eq, ltb, if◌then◌else◌, truthy, truthy?, length,
}
use llm_agent_control_plane.Platform.{Platform}
use llm_agent_control_plane.Json.{sorted}
use llm_agent_control_plane.Models.{Fields, end, field}
use llm_agent_control_plane.Regex.{Regex, Hit, search, found, find_all}
use llm_agent_control_plane.Filter.Types.{
  OutputDestination, external_email, external_export, webhook, destination_value, destination_eq,
  sensitive, restricted, sensitivity_value, sensitivity_eq, OutputFinding, OutputFilterContext,
}
use llm_agent_control_plane.Filter.Patterns.{
  private_key_pattern, jwt_pattern, secret_patterns, base64_blob_pattern,
  high_entropy_token_pattern, tenant_marker_pattern, sensitive_classification_pattern,
}
use llm_agent_control_plane.Filter.Measures.{
  redact_sample, entropy_is_low, is_digits, looks_like_encoded_secret,
}

first_label : List String → Option String
first_label [] = none
first_label (label ∷ labels) = some label

-- `tenant_id or context.tenant_id`
or_else : Option String → Option String → Option String
or_else a b = if truthy? a then a else b

-- `_finding`, with `tenant_id` given or not
unfoldable pub finding_for :
    Option String → String → String → String → String → OutputFilterContext → String → OutputFinding
unfolding first_label or_else destination_value
finding_for tenant_id finding_type severity reason sample context rule_id = record {
  finding_type = finding_type;
  severity = severity;
  reason = reason;
  redacted_sample = sample;
  source = first_label context.source_labels;
  tenant_id = or_else tenant_id context.tenant_id;
  destination = some (destination_value context.destination);
  rule_id = rule_id;
}

unfoldable pub finding :
    String → String → String → String → OutputFilterContext → String → OutputFinding
unfolding finding_for
finding = finding_for none

-- One finding if the test holds.
abbrev pub when : Bool → OutputFinding → List OutputFinding
when b f = if b then f ∷ [] else []

-- Does one of the patterns occur?
unfoldable pub any_found : List Regex → String → Bool
any_found [] text = false
any_found (r ∷ rs) text = found (search r text) || any_found rs text

group_text : Hit → String
group_text h = elim h.captured [ none ↦ "" | some g ↦ g ]

module _ (platform : Platform) where
  -- The loop over the blobs, which stops at the first one reported.
  blob_findings : List Hit → OutputFilterContext → List OutputFinding
  unfolding finding group_text redact_sample
  blob_findings [] context = []
  blob_findings (m ∷ ms) context =
      let later = blob_findings ms context in
      let blob = group_text m in
      if looks_like_encoded_secret platform blob
      then finding "encoded_blob" "high" "encoded_blob_blocked" (redact_sample blob 16) context
          "pattern.encoded_blob"
        ∷ []
      else later

  -- `_pattern_findings`
  unfoldable pub pattern_findings : String → OutputFilterContext → List OutputFinding
  unfolding finding blob_findings
  pattern_findings text context =
      when (found (search private_key_pattern text)) (
        finding "private_key_material" "critical" "private_key_material_blocked"
          (redact_sample text 24) context "pattern.private_key")
      ++ (when (found (search jwt_pattern text)) (
            finding "jwt_like_token" "critical" "jwt_like_token_blocked" (redact_sample text 24)
              context "pattern.jwt")
          ++ (when (any_found secret_patterns text) (
                finding "secret_pattern" "critical" "secret_pattern_blocked" (redact_sample text 24)
                  context "pattern.secret")
              ++ blob_findings (find_all base64_blob_pattern text) context))

  token_findings : List Hit → OutputFilterContext → List OutputFinding
  unfolding finding
  token_findings [] context = []
  token_findings (m ∷ ms) context =
      let later = token_findings ms context in
      let token = m.taken in
      if ltb (length token) 32 || entropy_is_low token || is_digits token
      then later
      else finding "high_entropy_string" "high" "high_entropy_string_blocked"
          (redact_sample token 12) context "entropy.token"
        ∷ []

  -- `_entropy_findings`
  unfoldable pub entropy_findings : String → OutputFilterContext → List OutputFinding
  unfolding token_findings
  entropy_findings text context =
      token_findings (find_all (high_entropy_token_pattern platform.is_word) text) context

  marker_findings : List Hit → String → OutputFilterContext → List OutputFinding
  unfolding finding_for group_text
  marker_findings [] tenant_id context = []
  marker_findings (m ∷ ms) tenant_id context =
      let later = marker_findings ms tenant_id context in
      if group_text m != tenant_id
      then finding_for (some (group_text m)) "cross_tenant_content" "high"
          "cross_tenant_output_blocked" "tenant_id:[REDACTED]" context "tenant.marker_mismatch"
        ∷ []
      else later

  -- `_tenant_marker_findings`
  unfoldable pub tenant_marker_findings : String → OutputFilterContext → List OutputFinding
  unfolding marker_findings
  tenant_marker_findings text context = elim context.tenant_id [
    | none ↦ []
    | some tenant_id ↦
        if not (truthy tenant_id)
        then []
        else marker_findings (find_all (tenant_marker_pattern platform.is_word) text) tenant_id
            context
  ]

  classified : Option Hit → OutputFilterContext → List OutputFinding
  unfolding finding group_text
  classified none context = []
  classified (some m) context =
      finding "sensitive_classification" "medium" "sensitive_classification_detected"
        ("classification:" <> platform.lower (group_text m)) context "classification.marker"
      ∷ []

  -- `_classification_findings`
  unfoldable pub classification_findings : String → OutputFilterContext → List OutputFinding
  unfolding classified
  classification_findings text context =
      classified (search (sensitive_classification_pattern platform.is_word) text) context

-- `_EXTERNAL_DESTINATIONS`
abbrev pub external_destinations : List OutputDestination
external_destinations = external_email ∷ external_export ∷ webhook ∷ []

-- `_source_sensitivity_findings`
unfoldable pub source_sensitivity_findings : OutputFilterContext → List OutputFinding
unfolding finding sensitivity_value
source_sensitivity_findings context =
    if not (contains external_destinations context.destination)
    then []
    else when (contains (sensitive ∷ restricted ∷ []) context.source_sensitivity) (
        finding "source_sensitivity" "high" "sensitive_source_external_destination_blocked"
          ("sensitivity:" <> sensitivity_value context.source_sensitivity) context
          "source.sensitivity_external")
      ++ when (contains context.source_labels "tool_output_untrusted") (
          finding "tool_output_source" "high" "tool_output_external_destination_blocked"
            "source:tool_output" context "source.tool_output_external")

-- `_SENSITIVE_RESPONSE_KEYS`
abbrev pub sensitive_response_keys : List String
sensitive_response_keys =
    "password" ∷ "secret" ∷ "api_key" ∷ "apikey" ∷ "token" ∷ "private_key" ∷ "credential"
    ∷ "access_token" ∷ []

unfoldable pub key_names : Fields → List String
key_names end = []
key_names (field k v fs) = k ∷ key_names fs

module _ (platform : Platform) (context : OutputFilterContext) where
  sensitive_key_findings : List String → List OutputFinding
  unfolding finding
  sensitive_key_findings [] = []
  sensitive_key_findings (key ∷ keys) =
      when (contains sensitive_response_keys (platform.lower key)) (
        finding "sensitive_response_key" "critical" "sensitive_response_key_blocked" ("key:" <> key)
          context "schema.sensitive_key")
      ++ sensitive_key_findings keys

  unknown_keys : List String → List String → List String
  unknown_keys allowed [] = []
  unknown_keys allowed (key ∷ keys) =
      let rest = unknown_keys allowed keys in if contains allowed key then rest else key ∷ rest

  unknown_key_findings : List String → List OutputFinding
  unfolding finding
  unknown_key_findings [] = []
  unknown_key_findings (key ∷ keys) =
      finding "unknown_response_key" "high" "unknown_response_key_blocked" ("key:" <> key) context
        "schema.unknown_key"
      ∷ unknown_key_findings keys

  strict_findings : Option (List String) → List String → List OutputFinding
  unfolding unknown_keys unknown_key_findings
  strict_findings none keys = []
  strict_findings (some allowed) keys =
      if context.strict_response_schema
      then unknown_key_findings (sorted (unknown_keys allowed keys))
      else []

  -- `_schema_findings`
  unfoldable pub schema_findings : Fields → List OutputFinding
  unfolding sensitive_key_findings strict_findings
  schema_findings structured =
      sensitive_key_findings (platform.set_order (key_names structured))
      ++ strict_findings context.allowed_response_keys (key_names structured)
