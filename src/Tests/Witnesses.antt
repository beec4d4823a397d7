-- ===== src/Tests/Witnesses.antt =====
-- The theorems about the components at concrete data.
use text.Mathlib.TextEquality.{eq_iff}
use llm_agent_control_plane.Base.{
  List, ◌∷◌, String, ◌<>◌, Bool, true, none, some, [], ◌≡◌, refl, ◌↔◌, inl, ok, string_eq, arith,
  option_eq, list_eq,
}
use mathlib.Core.List.{Permᴰ}
use llm_agent_control_plane.Approval.Reordering.{
  with_context_ids, with_provenance, verify_provenance_signature_perm, verify_approval_token_perm,
}
use llm_agent_control_plane.Models.{Provenance, trust_eq, source_eq, ApprovalToken, risk_value}
use llm_agent_control_plane.Platform.{aware, forward, is_after, assume_utc}
use llm_agent_control_plane.Policy.{evaluate_policy, find_tool, validate_provenance_for_tool}
use llm_agent_control_plane.Policy.Laws.{Permits, evaluate_policy_iff}
use llm_agent_control_plane.Integrity.{
  verify_provenance_integrity, verify_provenance_signature, sign_provenance, lab_demo_hmac_key,
  is_ascii,
}
use llm_agent_control_plane.Integrity.Laws.{IsIntact, verify_provenance_integrity_iff, verify-sign}
use llm_agent_control_plane.Approval.{
  verify_approval_token, create_approval_token, minted_token, build_approval_fingerprint,
  compute_action_fingerprint,
}
use llm_agent_control_plane.Json.{sorted_json}
use llm_agent_control_plane.Approval.Laws.{verify_approval_token_iff}
use llm_agent_control_plane.Approval.GateLaws.{Opens, evaluate_approval_gate_iff}
use llm_agent_control_plane.Approval.Minting.{verify-create}
use llm_agent_control_plane.Regex.{is_token_char}
use llm_agent_control_plane.Broker.Authority.{IsAuthorized, Allows, broker_tool_request_iff}
use llm_agent_control_plane.Schemas.Laws.{of_read_records, validate_tool_call_payload_iff}
use llm_agent_control_plane.Broker.Hardening.{Allows-weaken}
use llm_agent_control_plane.Schemas.{validate_tool_call_payload, find_schema, tool_schemas}
use llm_agent_control_plane.Filter.{filter_output, default_filter_context}
use llm_agent_control_plane.Filter.Secrets.{BlockedAsCritical, filter_output-of_secret}
use llm_agent_control_plane.Tests.Fixtures.{
  lab, default_policy, noon, asks, reviewed, reads, lax, strict, stamped, read_records,
}

evaluate_policy_iff_example : Permits default_policy (asks "safe_read") reads
unfolding evaluate_policy find_tool validate_provenance_for_tool string_eq trust_eq source_eq
    option_eq
evaluate_policy_iff_example = (evaluate_policy_iff default_policy (asks "safe_read") reads).0 refl

verify_provenance_integrity_iff_example :
    ((v : Bool × String) × (verify_provenance_integrity lab (some reviewed) lab_demo_hmac_key true
        ≡ ok v)
      × (v.0 ≡ true))
    ↔ ((p : _) × (some reviewed ≡ some p) × IsIntact lab lab_demo_hmac_key true p)
verify_provenance_integrity_iff_example =
    verify_provenance_integrity_iff lab lab_demo_hmac_key (some reviewed) true

verify-sign_example :
    verify_provenance_signature lab
      (sign_provenance lab reviewed lab_demo_hmac_key)
      lab_demo_hmac_key
    ≡ ok (true, "provenance_signature_valid")
unfolding is_ascii
verify-sign_example =
    verify-sign lab lab_demo_hmac_key
      (record { digest_nonempty = λ s. refl; digest_ascii = λ s. refl }) reviewed

verify_approval_token_iff_example :
    verify_approval_token lab stamped (asks "safe_read") reads "low" noon.now []
    ≡ ok (true, "approval_token_valid")
unfolding minted_token build_approval_fingerprint is_after assume_utc risk_value
    compute_action_fingerprint sorted_json
verify_approval_token_iff_example =
    (verify_approval_token_iff lab stamped (asks "safe_read") reads "low" noon.now []).1 (
      record {
        unmarked = refl;
        unused = λ h. elim h [ ];
        expires = aware 3600000000;
        parsed = refl;
        in_time = refl;
      },
      record {
        user = refl;
        tenant = refl;
        tool = refl;
        target = refl;
        risk = refl;
        context = refl;
        provenance = refl;
        action = refl;
      },
    )

evaluate_approval_gate_iff_example :
    Opens lab (asks "safe_read") read_records reads true noon.now []
evaluate_approval_gate_iff_example =
    (evaluate_approval_gate_iff lab (asks "safe_read") read_records reads true noon.now []).1
      (inl (refl, refl, refl))

verify-create_example :
    (token : ApprovalToken) × (create_approval_token lab "1" "approver-1"
        (asks "safe_read")
        reads
        read_records
        "because"
        (forward 3600)
        (aware 0)
      ≡ ok token)
    × (verify_approval_token lab token
          (asks "safe_read")
          reads
          (risk_value read_records.risk_level)
          (aware 60000000)
          []
        ≡ ok (true, "approval_token_valid"))
verify-create_example =
    verify-create lab "1" "approver-1" "because" (asks "safe_read") reads read_records 0 3600
      60000000 [] (omega arith) refl (λ h. elim h [ ])

permitted : Permits default_policy (asks "safe_read") reads
unfolding find_tool string_eq
permitted = record {
  tool_policy = read_records;
  listed = refl;
  enabled = refl;
  role = inl refl;
  tenant = λ h. refl;
  origin = reviewed;
  attached = refl;
  authorizing = (refl, inl refl);
  closed = ground (arith, eq_iff "deny" "allow");
}

-- The call is authorized where signatures and tokens are required.
pub authorized : IsAuthorized lab strict (asks "safe_read") default_policy reads noon.now []
unfolding permitted is_ascii find_schema tool_schemas string_eq
authorized = record {
  shaped = (_, of_read_records, refl);
  permitted = permitted;
  intact = λ on. record {
    signature = "ab12";
    present = refl;
    nonempty = refl;
    ascii = refl;
    ascii_mac = refl;
    same = refl;
  };
  approved = inl (refl, refl, refl);
}

broker_tool_request_iff_example :
    Allows lab strict (asks "safe_read") default_policy reads noon.now []
broker_tool_request_iff_example =
    (broker_tool_request_iff lab strict (asks "safe_read") default_policy reads noon.now []).1
      authorized

allowed_strictly : Allows lab strict (asks "safe_read") default_policy reads noon.now []
allowed_strictly =
    (broker_tool_request_iff lab strict (asks "safe_read") default_policy reads noon.now []).1
      authorized

Allows-weaken_example : Allows lab lax (asks "safe_read") default_policy reads noon.now []
Allows-weaken_example =
    Allows-weaken lab lax strict (asks "safe_read") default_policy reads noon.now []
      (record { same_key = refl; signature = λ h. refl; token = λ h. refl }) allowed_strictly

filter_output-of_secret_example : BlockedAsCritical (
    filter_output lab
      ("key: " <> ("sk-" <> "demo_0123456789_abcdef and more"))
      default_filter_context
      none)
unfolding is_token_char
filter_output-of_secret_example =
    filter_output-of_secret lab default_filter_context "key: " "demo_0123456789_abcdef and more"
      (ground arith)

validate_tool_call_payload_iff_example : (validate_tool_call_payload lab reads).0 ≡ true
unfolding find_schema tool_schemas string_eq
validate_tool_call_payload_iff_example =
    (validate_tool_call_payload_iff lab reads).1 (_, of_read_records, refl)

-- The same ids in two orders.
abbrev ids : List String
ids = "b" ∷ "a" ∷ []

abbrev two_ids : Provenance
two_ids = with_context_ids reviewed ("a" ∷ "b" ∷ [])

verify_provenance_signature_perm_example :
    verify_provenance_signature lab (with_context_ids two_ids ids) lab_demo_hmac_key
    ≡ verify_provenance_signature lab two_ids lab_demo_hmac_key
verify_provenance_signature_perm_example =
    verify_provenance_signature_perm two_ids ids (Permᴰ.swap refl refl) lab lab_demo_hmac_key

verify_approval_token_perm_example :
    verify_approval_token lab stamped
      (asks "safe_read")
      (with_provenance reads (with_context_ids two_ids ids))
      "low"
      noon.now
      []
    ≡ verify_approval_token lab stamped
        (asks "safe_read")
        (with_provenance reads two_ids)
        "low"
        noon.now
        []
verify_approval_token_perm_example =
    verify_approval_token_perm two_ids ids (Permᴰ.swap refl refl) lab stamped (asks "safe_read")
      reads "low" noon.now []
