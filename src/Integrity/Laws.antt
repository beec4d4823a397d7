-- ===== src/Integrity/Laws.antt =====
-- src/agent_control_plane/provenance_integrity.py: what signed provenance is, apart from its check.
use mathlib.Core.Path.{subst}
use mathlib.Core.Option.{some-injective}
use llm_agent_control_plane.Base.{
  sym, ◌∙◌, String, Bool, true, false, Option, none, some, ◌≡◌, refl, inl, inr, ◌↔◌, arith,
  Option-cases, truthy, Verdict, ok,
}
use llm_agent_control_plane.Models.{Provenance}
use llm_agent_control_plane.Platform.{Platform, Bytes}
use llm_agent_control_plane.Integrity.{
  is_ascii, canonical_provenance_json, compute_provenance_hmac, sign_provenance,
  verify_provenance_signature, verify_provenance_integrity,
}

module _ (platform : Platform) (key : Bytes) where
  open platform use {lower, hmac_sha256_hex}

  -- The signature is there, and is the key's over the canonical JSON, up to case; both are ASCII.
  pub record IsSigned (p : Provenance) : Type 0 where
    pub signature : String
    pub present : p.signature ≡ some signature
    pub nonempty : truthy signature ≡ true
    pub ascii : is_ascii (lower signature) ≡ true
    pub ascii_mac : is_ascii (lower (hmac_sha256_hex key (canonical_provenance_json p))) ≡ true
    pub same : lower signature ≡ lower (hmac_sha256_hex key (canonical_provenance_json p))

  verify-IsSigned :
      (p : Provenance) {v : Verdict}
      → verify_provenance_signature platform p key ≡ ok v
      → v.0 ≡ true
      → IsSigned p
  unfolding verify_provenance_signature compute_provenance_hmac
  verify-IsSigned p h good = elim (Option-cases p.signature) [
    | inl missing ↦ absurd (ground arith)
    | inr (s, present) ↦ record {
      signature = s;
      present = present;
      nonempty = ground arith;
      ascii = ground arith;
      ascii_mac = ground arith;
      same = ground arith;
    }
  ]

  IsSigned-verify :
      (p : Provenance)
      → IsSigned p
      → verify_provenance_signature platform p key ≡ ok (true, "provenance_signature_valid")
  unfolding verify_provenance_signature compute_provenance_hmac
  IsSigned-verify p s = ground (arith, s.present, s.nonempty, s.ascii, s.ascii_mac, s.same)

  of_same : {p q : Provenance} → some p ≡ some q → IsSigned q → IsSigned p
  of_same {p} {q} e s = subst IsSigned (some-injective q p (sym e)) s

  pub of_attached :
      {o : Option Provenance} {p q : Provenance} → o ≡ some p → o ≡ some q → IsSigned q → IsSigned p
  of_attached e f s = of_same (sym e ∙ f) s

  abbrev pub IsIntact : Bool → Provenance → Type 0
  IsIntact require_signature p = require_signature ≡ true → IsSigned p

  -- The integrity check answers, and passes, exactly if provenance is attached that, where
  -- signatures are required, bears the key's signature over its canonical JSON.
  pub verify_provenance_integrity_iff :
      (provenance : Option Provenance) (require_signature : Bool)
      → ((v : Verdict) × (verify_provenance_integrity platform provenance key require_signature
            ≡ ok v)
          × (v.0 ≡ true))
        ↔ ((p : Provenance) × (provenance ≡ some p) × IsIntact require_signature p)
  unfolding verify_provenance_integrity
  verify_provenance_integrity_iff none require_signature =
      (λ (v, answered, good). absurd (ground arith), λ (p, attached, intact). absurd (cc))
  verify_provenance_integrity_iff (some p) true = (
    λ (v, answered, good). (p, refl, λ _. verify-IsSigned p answered good),
    λ (q, attached, intact). (_, IsSigned-verify p (of_same attached (intact refl)), refl),
  )
  verify_provenance_integrity_iff (some p) false =
      (λ (v, answered, good). (p, refl, λ e. cc), λ (q, attached, intact). (_, refl, refl))

  -- What is documented of the digest: `hexdigest` is a nonempty ASCII text, and stays ASCII in
  -- lower case.
  pub record IsHexDigest : Type 0 where
    pub digest_nonempty : (s : String) → truthy (hmac_sha256_hex key s) ≡ true
    pub digest_ascii : (s : String) → is_ascii (lower (hmac_sha256_hex key s)) ≡ true

  -- Provenance that `sign_provenance` signs verifies under the same key, if digests are nonempty
  -- ASCII texts, whatever signature it bore before.
  pub verify-sign :
      IsHexDigest
      → (p : Provenance)
      → verify_provenance_signature platform (sign_provenance platform p key) key
        ≡ ok (true, "provenance_signature_valid")
  unfolding sign_provenance compute_provenance_hmac canonical_provenance_json
  verify-sign h p = IsSigned-verify (sign_provenance platform p key) (record {
    signature = hmac_sha256_hex key (canonical_provenance_json p);
    present = refl;
    nonempty = h.digest_nonempty _;
    ascii = h.digest_ascii _;
    ascii_mac = h.digest_ascii _;
    same = refl;
  })
