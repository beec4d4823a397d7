-- ===== src/Tests/PolicyWitnesses.antt =====
-- The theorems about policy files at the repository's own file.
use text.Mathlib.TextEquality.{eq_iff}
use mathlib.Core.List.{Permᴰ}
use llm_agent_control_plane.Base.{
  String, ◌<>◌, true, false, ◌≡◌, refl, ◌↔◌, inl, arith, ok, string_eq, length, join,
}
use llm_agent_control_plane.Models.{Fields, obj, end, field, get, strs}
use llm_agent_control_plane.Platform.{text_of}
use llm_agent_control_plane.Json.{sorted, insert_text, str_le}
use llm_agent_control_plane.Policy.{PolicyDocument}
use llm_agent_control_plane.Policy.Loading.{load_policy}
use llm_agent_control_plane.Policy.Loading.Soundness.{IsSafePolicy, load_policy-IsSafePolicy}
use llm_agent_control_plane.Policy.Validation.{
  require_none, keys_of, difference, value_at, is_bool, is_list, all_texts, truthy_value,
  is_admin_only, is_risk_level, items_of, tool, require_bools, validate_tool_field_types,
  validate_send_email, validate_export_records, validate_named_tool,
  validate_tool_security_invariants, validate_tool, validate_entry, has_text, validate_tools,
  validate_mapping, validate_policy_invariants, load_policy_yaml,
}
use llm_agent_control_plane.Policy.Validation.Document.{
  IsSoundPolicy, validate_policy_invariants_iff,
}
use llm_agent_control_plane.Policy.Hash.{
  value_or_null, all_hex, texts_of, canonical_tool_value, canonical_settings, canonical_tool,
  canonical_tools, canonical_mapping, canonical_policy_payload, canonical_policy_json,
  compute_policy_sha256, validate_policy_file, read_expected_hash,
}
use llm_agent_control_plane.Policy.Hash.Golden.{IsHexDigest}
use llm_agent_control_plane.Policy.Hash.Reordering.{compute_policy_sha256_perm}
use llm_agent_control_plane.Policy.Script.{main, hash_written, hash_matches}
use llm_agent_control_plane.Policy.Script.Golden.{
  IsWritten, IsSuccess, main_of_success, main-written,
}
use llm_agent_control_plane.Tests.Files.{
  zeros, digesting, digesting-IsSetOrder, tools_on_file, policy_on_file, files, files-Validates,
}

zeros-IsHexDigest : IsHexDigest digesting zeros
unfolding length all_hex
zeros-IsHexDigest = record { size = refl; hex = refl; is_lower = refl }

invariants_hold : validate_policy_invariants digesting policy_on_file ≡ ok tt
unfolding validate_policy_invariants require_none keys_of difference value_at is_bool is_list
    all_texts truthy_value is_admin_only is_risk_level items_of tool require_bools
    validate_tool_field_types validate_send_email validate_export_records validate_named_tool
    validate_tool_security_invariants validate_tool validate_entry has_text validate_tools
    validate_mapping policy_on_file tools_on_file get strs string_eq join sorted insert_text str_le
invariants_hold = refl

hash_is_zeros : compute_policy_sha256 digesting policy_on_file ≡ ok zeros
unfolding compute_policy_sha256 canonical_policy_json canonical_policy_payload canonical_mapping
    canonical_tools canonical_tool canonical_settings canonical_tool_value texts_of value_or_null
    keys_of value_at is_bool policy_on_file tools_on_file get strs string_eq sorted insert_text
    str_le text_of
hash_is_zeros = refl

valid_file : validate_policy_file digesting files "policy" ≡ ok zeros
unfolding validate_policy_file load_policy_yaml
valid_file = rw (invariants_hold, hash_is_zeros) refl

pub sound_file : IsSoundPolicy policy_on_file
sound_file =
    (validate_policy_invariants_iff digesting digesting-IsSetOrder policy_on_file).0 invariants_hold

unchanged : IsWritten files files "policy" "golden" (zeros <> "\n")
unfolding string_eq
unchanged = record {
  still_file = refl;
  still_text = refl;
  still_parsed = refl;
  written = refl;
  file = refl;
  contents = refl;
}

validate_policy_invariants_iff_example :
    (validate_policy_invariants digesting policy_on_file ≡ ok tt) ↔ IsSoundPolicy policy_on_file
validate_policy_invariants_iff_example =
    validate_policy_invariants_iff digesting digesting-IsSetOrder policy_on_file

main-written_example :
    (main digesting files "policy" "golden" true ≡ ok (hash_written "policy" "golden" zeros))
    × (main digesting files "policy" "golden" false ≡ ok (hash_matches "policy" "golden" zeros))
main-written_example =
    main-written digesting (λ s. zeros-IsHexDigest) files files "policy" "golden" zeros valid_file
      unchanged

pub accepted : IsSuccess (main digesting files "policy" "golden" false)
unfolding hash_matches
accepted =
    rw
      (main-written digesting (λ s. zeros-IsHexDigest) files files "policy" "golden" zeros
        valid_file unchanged).1
      refl

main_of_success_example :
    (raw : Fields) × (load_policy_yaml files "policy" ≡ ok raw)
    × IsSoundPolicy raw
    × (compute_policy_sha256 digesting raw ≡ read_expected_hash digesting files "golden")
main_of_success_example =
    main_of_success digesting files digesting-IsSetOrder "policy" "golden" accepted

pub raw_loaded : load_policy_yaml files "policy" ≡ ok policy_on_file
unfolding load_policy_yaml
raw_loaded = refl

load_policy-IsSafePolicy_example :
    (policy : PolicyDocument) × (load_policy digesting files "policy" ≡ ok policy)
    × IsSafePolicy policy
load_policy-IsSafePolicy_example =
    load_policy-IsSafePolicy digesting files "policy" files-Validates policy_on_file raw_loaded
      sound_file

-- Two tools in two orders.
abbrev one_way : Fields
one_way = field "a" (obj end) (field "b" (obj end) end)

abbrev other_way : Fields
other_way = field "b" (obj end) (field "a" (obj end) end)

abbrev with_tools : Fields → Fields
with_tools tools = field "tools" (obj tools) end

same_entries : (k : String) → get k one_way ≡ get k other_way
unfolding get
same_entries k = ground (arith, eq_iff "a" "b")

compute_policy_sha256_perm_example :
    compute_policy_sha256 digesting (with_tools one_way)
    ≡ compute_policy_sha256 digesting (with_tools other_way)
unfolding get keys_of string_eq
compute_policy_sha256_perm_example =
    compute_policy_sha256_perm digesting (with_tools one_way) (with_tools other_way) one_way
      other_way refl refl refl refl (Permᴰ.swap refl refl, λ k. inl (same_entries k))
