-- ===== src/Filter/Decision.antt =====
-- src/agent_control_plane/output_filter.py: `filter_output` and what it decides by.
use llm_agent_control_plane.Base.{
  ℕ, suc, String, Bool, true, false, ◌||◌, ◌&&◌, Option, none, some, List, [], ◌∷◌, ◌++◌, ◌==◌,
  contains, string_eq, option_eq, if◌then◌else◌, truthy,
}
use llm_agent_control_plane.Platform.{Platform}
use llm_agent_control_plane.Json.{sorted}
use llm_agent_control_plane.Models.{Fields, Items, str, obj, nil, cons, end, field}
use llm_agent_control_plane.Filter.Types.{
  internal_display, audit_log, public, destination_eq, OutputFinding, OutputFilterContext,
  OutputFilterResult,
}
use llm_agent_control_plane.Filter.Measures.{highest_severity}
use llm_agent_control_plane.Filter.Detectors.{
  pattern_findings, entropy_findings, tenant_marker_findings, classification_findings,
  source_sensitivity_findings, schema_findings, external_destinations,
}

-- Is the finding's key among those seen?
unfoldable pub is_seen : OutputFinding → List (String × String) → Bool
is_seen f [] = false
is_seen f ((rule_id, reason) ∷ seen) =
    (f.rule_id == rule_id && f.reason == reason) || is_seen f seen

unfoldable pub dedupe_from : List (String × String) → List OutputFinding → List OutputFinding
unfolding is_seen
dedupe_from seen [] = []
dedupe_from seen (f ∷ fs) =
    let skipped = dedupe_from seen fs in
    let kept = f ∷ dedupe_from ((f.rule_id, f.reason) ∷ seen) fs in
    if is_seen f seen then skipped else kept

-- `_dedupe_findings`
unfoldable pub dedupe_findings : List OutputFinding → List OutputFinding
unfolding dedupe_from
dedupe_findings findings = dedupe_from [] findings

-- `_should_block`
unfoldable pub should_block : List OutputFinding → OutputFilterContext → Bool
should_block [] context = false
should_block (f ∷ fs) context =
    let highest = highest_severity (f ∷ fs) in
    if highest == some "critical" || highest == some "high"
    then true
    else if contains external_destinations context.destination
    then true
    else if context.destination == internal_display
    then highest == some "medium"
    else false

has_reason : String → List OutputFinding → Bool
has_reason reason [] = false
has_reason reason (f ∷ fs) = f.reason == reason || has_reason reason fs

first_preferred : List String → List OutputFinding → String → String
unfolding has_reason
first_preferred [] findings fallback = fallback
first_preferred (reason ∷ reasons) findings fallback =
    let later = first_preferred reasons findings fallback in
    if has_reason reason findings then reason else later

-- The order of preference in `_primary_block_reason`.
abbrev preferred_reasons : List String
preferred_reasons =
    "secret_pattern_blocked" ∷ "private_key_material_blocked" ∷ "jwt_like_token_blocked"
    ∷ "encoded_blob_blocked" ∷ "high_entropy_string_blocked" ∷ "cross_tenant_output_blocked"
    ∷ "sensitive_source_external_destination_blocked" ∷ "tool_output_external_destination_blocked"
    ∷ "sensitive_response_key_blocked" ∷ "unknown_response_key_blocked" ∷ []

-- `_primary_block_reason` of the findings f ∷ fs
unfoldable pub primary_block_reason : OutputFinding → List OutputFinding → String
unfolding first_preferred
primary_block_reason f fs = first_preferred preferred_reasons (f ∷ fs) f.reason

count_findings : List OutputFinding → ℕ
count_findings [] = 0
count_findings (f ∷ fs) = suc (count_findings fs)

-- `{f.finding_type for f in findings}`
type_set : List OutputFinding → List String
type_set [] = []
type_set (f ∷ fs) =
    let rest = type_set fs in if contains rest f.finding_type then rest else f.finding_type ∷ rest

-- `OutputFilterResult.__init__`
unfoldable pub output_filter_result :
    Bool → String → String → List OutputFinding → OutputFilterResult
unfolding count_findings type_set
output_filter_result allowed reason filtered_text findings = record {
  allowed = allowed;
  reason = reason;
  filtered_text = filtered_text;
  findings = findings;
  output_filter_decision = if allowed then "allow" else "block";
  finding_count = count_findings findings;
  finding_types = sorted (type_set findings);
  highest_severity = highest_severity findings;
}

-- The end of `filter_output`, from the findings without their repetitions.
unfoldable pub decide_output :
    String → OutputFilterContext → List OutputFinding → OutputFilterResult
decide_output text context [] = output_filter_result true "output_allowed" text []
decide_output text context (f ∷ fs) =
    if should_block (f ∷ fs) context
    then output_filter_result false (primary_block_reason f fs) "" (f ∷ fs)
    else if context.destination == audit_log
    then output_filter_result true "audit_log_redacted_only" "" (f ∷ fs)
    else output_filter_result true "output_allowed" text (f ∷ fs)

-- `OutputFilterContext()`
unfoldable pub default_filter_context : OutputFilterContext
default_filter_context = record {
  tenant_id = none;
  destination = internal_display;
  source_sensitivity = public;
  source_labels = [];
  strict_response_schema = false;
  allowed_response_keys = none;
}

module _ (platform : Platform) where
  unfoldable pub structured_findings : Option Fields → OutputFilterContext → List OutputFinding
  structured_findings none context = []
  structured_findings (some structured) context = schema_findings platform context structured

  unfoldable pub text_findings : String → OutputFilterContext → List OutputFinding
  text_findings text context =
      if truthy text
      then pattern_findings platform text context
        ++ (entropy_findings platform text context
            ++ (tenant_marker_findings platform text context
                ++ classification_findings platform text context))
      else []

  -- The findings of all detectors, in the order of the source.
  unfoldable pub all_findings : String → OutputFilterContext → Option Fields → List OutputFinding
  unfolding structured_findings
  all_findings text context structured =
      structured_findings structured context
      ++ (text_findings text context ++ source_sensitivity_findings context)

  -- `filter_output`
  unfoldable pub filter_output : String → OutputFilterContext → Option Fields → OutputFilterResult
  filter_output text context structured =
      decide_output text context (dedupe_findings (all_findings text context structured))

  -- `filter_model_output`
  unfoldable pub filter_model_output : String → OutputFilterResult
  filter_model_output text = filter_output text default_filter_context none

-- `findings_for_audit`
unfoldable pub findings_for_audit : List OutputFinding → Items
findings_for_audit [] = nil
findings_for_audit (f ∷ fs) =
    cons
      (obj (
        field "finding_type" (str f.finding_type) (
          field "severity" (str f.severity) (
            field "reason" (str f.reason) (
              field "redacted_sample" (str f.redacted_sample)
                (field "rule_id" (str f.rule_id) end))))))
      (findings_for_audit fs)
