-- ===== src/Integrity.antt =====
-- src/agent_control_plane/provenance_integrity.py: canonical form, HMAC signature and its check.
pub mod Keys
pub mod Laws
unfoldable pub use Keys.*
use llm_agent_control_plane.Base.{
  String, Bool, true, false, not, Option, none, some, ◌==◌, string_eq, truthy?, Verdict, Result, ok,
  raised, type_error, ◌&&◌, ◌>>=◌, if◌then◌else◌,
}
use llm_agent_control_plane.Models.{
  Provenance, source_value, trust_value, Value, arr, str, obj, end, field, strs, opt_str,
}
use llm_agent_control_plane.Platform.{Platform, Bytes}
use llm_agent_control_plane.Json.{sorted, canonical_json}

-- `canonicalize_provenance`
unfoldable pub canonicalize_provenance : Provenance → Value
canonicalize_provenance p = obj (
    field "source" (str (source_value p.source)) (
      field "trust" (str (trust_value p.trust)) (
        field "context_ids" (arr (strs (sorted p.context_ids))) (
          field "tenant_id" (opt_str p.tenant_id) (
            field "chunk_id" (opt_str p.chunk_id)
              (field "content_hash" (opt_str p.content_hash) end))))))

-- `canonical_provenance_json`
unfoldable pub canonical_provenance_json : Provenance → String
unfolding canonicalize_provenance
canonical_provenance_json p = canonical_json (canonicalize_provenance p)

module _ (platform : Platform) where
  -- `compute_content_hash`
  unfoldable pub compute_content_hash : String → String
  compute_content_hash content = platform.sha256_hex content

  -- `compute_provenance_hmac`
  unfoldable pub compute_provenance_hmac : Provenance → Bytes → String
  compute_provenance_hmac p key = platform.hmac_sha256_hex key (canonical_provenance_json p)

  -- `sign_provenance`
  unfoldable pub sign_provenance : Provenance → Bytes → Provenance
  sign_provenance p key = record p { signature = some (compute_provenance_hmac p key) }

  -- `hmac.compare_digest` on texts, which raises TypeError unless both are ASCII.
  unfoldable pub compare_digest : String → String → Result Bool
  compare_digest a b = if is_ascii a && is_ascii b then ok (a == b) else raised type_error

  unfoldable pub verify_present : Provenance → String → Bytes → Result Verdict
  unfolding compare_digest
  verify_present p signature key = do
    same ←
        compare_digest (platform.lower signature) (platform.lower (compute_provenance_hmac p key))
    if not same
        then ok (false, "provenance_signature_invalid")
        else ok (true, "provenance_signature_valid")

  -- `verify_provenance_signature`
  unfoldable pub verify_provenance_signature : Provenance → Bytes → Result Verdict
  unfolding verify_present
  verify_provenance_signature p key = elim p.signature [
    | none ↦ ok (false, "provenance_signature_missing")
    | some signature ↦
        if not (truthy? (some signature))
        then ok (false, "provenance_signature_missing")
        else verify_present p signature key
  ]

  -- `verify_provenance_integrity`
  unfoldable pub verify_provenance_integrity : Option Provenance → Bytes → Bool → Result Verdict
  verify_provenance_integrity none key require_signature = ok (false, "missing_provenance_denied")
  verify_provenance_integrity (some p) key require_signature =
      if not require_signature
      then ok (true, "provenance_signature_not_required")
      else verify_provenance_signature p key
