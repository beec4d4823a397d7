-- ===== src/Schemas/Laws.antt =====
-- src/agent_control_plane/schemas.py: what valid arguments are.
use Prim.Native.String.{String}
use mathlib.Core.Option.{some-injective}
use llm_agent_control_plane.Base.{
  true, false, [], ◌∷◌, ◌≢◌, ◌∙◌, sym, ap, none, some, List, ◌≡◌, refl, ◌↔◌, inl, inr, string_eq,
  arith, Option-cases, truthy,
}
use llm_agent_control_plane.Models.{ToolCallPayload}
use llm_agent_control_plane.Platform.{Platform, FieldSpec, text, optional_text, text_list}
use llm_agent_control_plane.Schemas.{
  read_records_args, send_email_args, export_records_args, delete_records_args, run_shell_args,
  tool_schemas, find_schema, validate_tool_arguments, validate_tool_call_payload,
}

-- The argument class of each tool: the fields with their annotations, and whether they have a
-- default.
pub data HasSchema : String → List FieldSpec → Type 0 where
  of_read_records :
      HasSchema "read_records"
        (record { name = "record_ids"; annotation = text_list; has_default = true } ∷ [])
  of_send_email : HasSchema "send_email" (
      record { name = "to"; annotation = text; has_default = false }
      ∷ record { name = "subject"; annotation = text; has_default = false }
      ∷ record { name = "body"; annotation = text; has_default = false }
      ∷ [])
  of_export_records : HasSchema "export_records" (
      record { name = "format"; annotation = text; has_default = true }
      ∷ record { name = "filter"; annotation = optional_text; has_default = true }
      ∷ [])
  of_delete_records :
      HasSchema "delete_records"
        (record { name = "record_ids"; annotation = text_list; has_default = false } ∷ [])
  of_run_shell :
      HasSchema "run_shell"
        (record { name = "command"; annotation = text; has_default = false } ∷ [])

find_schema-of_HasSchema :
    (name : String) (schema : List FieldSpec)
    → HasSchema name schema
    → find_schema name tool_schemas ≡ some schema
unfolding find_schema tool_schemas string_eq read_records_args send_email_args export_records_args
    delete_records_args run_shell_args
find_schema-of_HasSchema _ _ of_read_records = refl
find_schema-of_HasSchema _ _ of_send_email = refl
find_schema-of_HasSchema _ _ of_export_records = refl
find_schema-of_HasSchema _ _ of_delete_records = refl
find_schema-of_HasSchema _ _ of_run_shell = refl

-- The name is one of the registered tools.
HasSchema-of_find_schema :
    (name : String) (schema : List FieldSpec)
    → find_schema name tool_schemas ≡ some schema
    → HasSchema name schema
unfolding find_schema tool_schemas
HasSchema-of_find_schema name schema h = elim (string_eq.dec name "read_records") [
  | yes e ↦ named e of_read_records
  | no n₁ ↦ elim (string_eq.dec name "send_email") [
    | yes e ↦ named e of_send_email
    | no n₂ ↦ elim (string_eq.dec name "export_records") [
      | yes e ↦ named e of_export_records
      | no n₃ ↦ elim (string_eq.dec name "delete_records") [
        | yes e ↦ named e of_delete_records
        | no n₄ ↦ elim (string_eq.dec name "run_shell") [
          | yes e ↦ named e of_run_shell
          | no n₅ ↦ absurd (unnamed n₁ n₂ n₃ n₄ n₅)
        ]
      ]
    ]
  ]
]
  where
    named :
        {k : String} {fields : List FieldSpec}
        → name ≡ k
        → HasSchema k fields
        → HasSchema name schema
    named {k} {fields} e listed =
        let found : some fields ≡ some schema =
          sym (find_schema-of_HasSchema k fields listed)
          ∙ ap (λ n. find_schema n tool_schemas) (sym e)
          ∙ h in
        rw (e, sym (some-injective fields schema found)) listed

    unnamed :
        name ≢ "read_records"
        → name ≢ "send_email"
        → name ≢ "export_records"
        → name ≢ "delete_records"
        → name ≢ "run_shell"
        → ⊥
    unnamed n₁ n₂ n₃ n₄ n₅ = ground arith

module _ (platform : Platform) (t : ToolCallPayload) where
  -- The tool is registered, and its argument class accepts the arguments.
  abbrev pub HasValidArguments : Type 0
  HasValidArguments =
      (schema : List FieldSpec) × HasSchema t.tool_name schema
      × (platform.validation_error schema t.arguments ≡ none)

  truthy_of_known :
      (name : String) (schema : List FieldSpec) → HasSchema name schema → truthy name ≡ true
  truthy_of_known _ schema of_read_records = refl
  truthy_of_known _ schema of_send_email = refl
  truthy_of_known _ schema of_export_records = refl
  truthy_of_known _ schema of_delete_records = refl
  truthy_of_known _ schema of_run_shell = refl

  -- The payload check passes exactly if the tool is one of read_records, send_email,
  -- export_records, delete_records and run_shell, and the argument class of that tool, with the
  -- fields that `HasSchema` lists for it, accepts the arguments.
  pub validate_tool_call_payload_iff :
      ((validate_tool_call_payload platform t).0 ≡ true) ↔ HasValidArguments
  unfolding validate_tool_call_payload validate_tool_arguments
  validate_tool_call_payload_iff = (
    λ h. elim (Option-cases (find_schema t.tool_name tool_schemas)) [
      | inl missing ↦ absurd (ground arith)
      | inr (schema, known) ↦
          (schema, HasSchema-of_find_schema t.tool_name schema known, ground arith)
    ],
    λ (schema, listed, valid). ground (
      arith,
      truthy_of_known t.tool_name schema listed,
      find_schema-of_HasSchema t.tool_name schema listed,
      valid,
    ),
  )
