-- ===== src/Approval/Reordering.antt =====
-- src/agent_control_plane/approval_tokens.py and provenance_integrity.py: the order in which
-- provenance lists its context ids.
use mathlib.Core.List.{Permᴰ}
use llm_agent_control_plane.Base.{ap, arith, inl, inr, Option-cases, String, List, some, ◌≡◌, refl}
use llm_agent_control_plane.Models.{AgentRequest, ToolCallPayload, Provenance, ApprovalToken}
use llm_agent_control_plane.Platform.{Platform, DateTime, Bytes}
use llm_agent_control_plane.Json.{canonical_json, sorted_json}
use llm_agent_control_plane.Json.Sorting.{sorted_perm}
use llm_agent_control_plane.Integrity.{
  canonicalize_provenance, canonical_provenance_json, compute_provenance_hmac, verify_present,
  verify_provenance_signature,
}
use llm_agent_control_plane.Approval.Fingerprint.{
  sorted_context_ids, compute_provenance_fingerprint, compute_action_fingerprint,
  provenance_payload, canonical_action_payload, action_label,
}
use llm_agent_control_plane.Approval.Tokens.{Registry, verify_binding, verify_approval_token}

abbrev pub with_context_ids : Provenance → List String → Provenance
with_context_ids p ids = record p { context_ids = ids }

abbrev pub with_provenance : ToolCallPayload → Provenance → ToolCallPayload
with_provenance t p = record t { provenance = some p }

module _ (p : Provenance) (ids : List String) (same : Permᴰ p.context_ids ids) where
  canonicalize_perm : canonicalize_provenance (with_context_ids p ids) ≡ canonicalize_provenance p
  unfolding canonicalize_provenance
  canonicalize_perm = rw (sorted_perm same) refl

  fingerprint_perm :
      (platform : Platform)
      → compute_provenance_fingerprint platform (some (with_context_ids p ids))
        ≡ compute_provenance_fingerprint platform (some p)
  unfolding compute_provenance_fingerprint provenance_payload
  fingerprint_perm platform = ap (λ v. platform.sha256_hex (canonical_json v)) canonicalize_perm

  hmac_perm :
      (platform : Platform) (key : Bytes)
      → compute_provenance_hmac platform (with_context_ids p ids) key
        ≡ compute_provenance_hmac platform p key
  unfolding compute_provenance_hmac canonical_provenance_json
  hmac_perm platform key =
      ap (λ v. platform.hmac_sha256_hex key (canonical_json v)) canonicalize_perm

  present_perm :
      (platform : Platform) (key : Bytes) (signature : String)
      → verify_present platform (with_context_ids p ids) signature key
        ≡ verify_present platform p signature key
  unfolding verify_present
  present_perm platform key signature = rw (hmac_perm platform key) refl

  -- Provenance whose context ids are listed in another order has the same answer of the signature
  -- check under every key.
  pub verify_provenance_signature_perm :
      (platform : Platform) (key : Bytes)
      → verify_provenance_signature platform (with_context_ids p ids) key
        ≡ verify_provenance_signature platform p key
  unfolding verify_provenance_signature
  verify_provenance_signature_perm platform key = elim (Option-cases p.signature) [
    | inl missing ↦ rw missing refl
    | inr (signature, present) ↦ rw present (ground (arith, present_perm platform key signature))
  ]

  module _ (platform : Platform) (token : ApprovalToken) (request : AgentRequest)
      (t : ToolCallPayload) (risk_level : String) where
    payload_perm :
        canonical_action_payload platform request
          (with_provenance t (with_context_ids p ids))
          risk_level
        ≡ canonical_action_payload platform request (with_provenance t p) risk_level
    unfolding canonical_action_payload action_label sorted_context_ids
    payload_perm = rw (fingerprint_perm platform, sorted_perm same) refl

    action_perm :
        compute_action_fingerprint platform request
          (with_provenance t (with_context_ids p ids))
          risk_level
        ≡ compute_action_fingerprint platform request (with_provenance t p) risk_level
    unfolding compute_action_fingerprint
    action_perm = ap (λ v. platform.sha256_hex (sorted_json v)) payload_perm

    binding_perm :
        verify_binding platform token request
          (with_provenance t (with_context_ids p ids))
          risk_level
        ≡ verify_binding platform token request (with_provenance t p) risk_level
    unfolding verify_binding sorted_context_ids
    binding_perm = rw (fingerprint_perm platform, action_perm, sorted_perm same) refl

    -- A token has the same verdict for two calls that differ only in the order of the context ids
    -- of their provenance.
    pub verify_approval_token_perm :
        (now : DateTime) (used : Registry)
        → verify_approval_token platform token request
            (with_provenance t (with_context_ids p ids))
            risk_level
            now
            used
          ≡ verify_approval_token platform token request (with_provenance t p) risk_level now used
    unfolding verify_approval_token
    verify_approval_token_perm now used = rw binding_perm refl
