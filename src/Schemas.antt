-- ===== src/Schemas.antt =====
-- src/agent_control_plane/schemas.py: the argument classes as pydantic sees them, and the checks.
pub mod Laws
use llm_agent_control_plane.Base.{
  String, ◌<>◌, true, false, not, Option, none, some, List, [], ◌∷◌, ◌==◌, string_eq, truthy,
  Verdict, if◌then◌else◌, map,
}
use llm_agent_control_plane.Models.{Fields, ToolCallPayload}
use llm_agent_control_plane.Platform.{
  Platform, FieldSpec, Annotation, text, optional_text, text_list,
}

required : String → Annotation → FieldSpec
required name annotation = record { name = name; annotation = annotation; has_default = false }

defaulted : String → Annotation → FieldSpec
defaulted name annotation = record { name = name; annotation = annotation; has_default = true }

-- `ReadRecordsArgs`
unfoldable pub read_records_args : List FieldSpec
unfolding defaulted
read_records_args = defaulted "record_ids" text_list ∷ []

-- `SendEmailArgs`
unfoldable pub send_email_args : List FieldSpec
unfolding required
send_email_args = required "to" text ∷ required "subject" text ∷ required "body" text ∷ []

-- `ExportRecordsArgs`
unfoldable pub export_records_args : List FieldSpec
unfolding defaulted
export_records_args = defaulted "format" text ∷ defaulted "filter" optional_text ∷ []

-- `DeleteRecordsArgs`
unfoldable pub delete_records_args : List FieldSpec
unfolding required
delete_records_args = required "record_ids" text_list ∷ []

-- `RunShellArgs`
unfoldable pub run_shell_args : List FieldSpec
unfolding required
run_shell_args = required "command" text ∷ []

-- `_TOOL_SCHEMAS`
unfoldable pub tool_schemas : List (String × List FieldSpec)
unfolding read_records_args send_email_args export_records_args delete_records_args run_shell_args
tool_schemas =
    ("read_records", read_records_args)
    ∷ ("send_email", send_email_args)
    ∷ ("export_records", export_records_args)
    ∷ ("delete_records", delete_records_args)
    ∷ ("run_shell", run_shell_args)
    ∷ []

-- `known_tool_names`
unfoldable pub known_tool_names : List String
unfolding tool_schemas
known_tool_names = map (λ (name, _). name) tool_schemas

unfoldable pub find_schema : String → List (String × List FieldSpec) → Option (List FieldSpec)
find_schema name [] = none
find_schema name ((k, schema) ∷ rest) = if k == name then some schema else find_schema name rest

validated : Option String → Verdict
validated none = (true, "schema_valid")
validated (some error_type) = (false, "schema_validation_failed:" <> error_type)

module _ (platform : Platform) where
  -- `validate_tool_arguments`
  unfoldable pub validate_tool_arguments : String → Fields → Verdict
  unfolding validated
  validate_tool_arguments tool_name arguments = elim (find_schema tool_name tool_schemas) [
    | none ↦ (false, "unknown_tool_schema:" <> tool_name)
    | some schema ↦ validated (platform.validation_error schema arguments)
  ]

  -- `validate_tool_call_payload`
  unfoldable pub validate_tool_call_payload : ToolCallPayload → Verdict
  validate_tool_call_payload payload =
      if not (truthy payload.tool_name)
      then (false, "missing_tool_name")
      else validate_tool_arguments payload.tool_name payload.arguments
