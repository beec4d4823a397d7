-- ===== src/Policy/Script/Golden.antt =====
-- scripts/validate_policy.py: writing the hash and checking against it.
use llm_agent_control_plane.Base.{
  String, ◌<>◌, true, false, ◌≡◌, refl, sym, ◌∙◌, string_eq, arith, Result, ok, raised, >>=-eq-ok,
  policy_integrity_error,
}
use llm_agent_control_plane.Models.{Fields}
use llm_agent_control_plane.Platform.{Platform}
use llm_agent_control_plane.Host.{Host}
use llm_agent_control_plane.Policy.Validation.{load_policy_yaml, validate_policy_invariants}
use llm_agent_control_plane.Policy.Validation.Soundness.{IsSetOrder}
use llm_agent_control_plane.Policy.Validation.Document.{
  IsSoundPolicy, validate_policy_invariants_iff,
}
use llm_agent_control_plane.Policy.Hash.{
  compute_policy_sha256, canonical_policy_json, read_expected_hash, validate_policy_file,
  verify_policy_file_hash,
}
use llm_agent_control_plane.Policy.Hash.Golden.{IsHexDigest, read_expected_hash-written}
use llm_agent_control_plane.Policy.Script.{
  Run, main, check_hash, on_refusal, hash_written, hash_matches, hash_mismatch, invalid_policy,
}

-- The write returned; nothing happened to the policy file, and the text is in the other file.
pub record IsWritten (before after : Host) (policy_path path text : String) : Type 0 where
  pub still_file : after.is_file policy_path ≡ before.is_file policy_path
  pub still_text : after.read_text policy_path ≡ before.read_text policy_path
  pub still_parsed : after.safe_load ≡ before.safe_load
  pub written : before.write_text path text ≡ ok tt
  pub file : after.is_file path ≡ true
  pub contents : after.read_text path ≡ ok text

-- A run that gets an exit code at all, and the code is 0.
abbrev pub IsSuccess : Result Run → Type 0
IsSuccess (ok run) = run.exit_code ≡ 0
IsSuccess (raised e) = ⊥

on_refusal-IsSuccess :
    (call : Result String) (failed : String → Run) (rest : String → Result Run)
    → ((message : String) → (failed message).exit_code ≡ 1)
    → IsSuccess (on_refusal call failed rest)
    → (digest : String) × (call ≡ ok digest) × IsSuccess (rest digest)
unfolding on_refusal
on_refusal-IsSuccess (ok digest) failed rest fails h = (digest, refl, h)
on_refusal-IsSuccess (raised (policy_integrity_error message)) failed rest fails h =
    absurd (omega (arith, fails message, h))
on_refusal-IsSuccess (raised e) failed rest fails h = absurd h

module _ (platform : Platform) (host : Host) where
  file_parts :
      (path digest : String)
      → validate_policy_file platform host path ≡ ok digest
      → (raw : Fields) × (load_policy_yaml host path ≡ ok raw)
        × (validate_policy_invariants platform raw ≡ ok tt)
        × (compute_policy_sha256 platform raw ≡ ok digest)
  unfolding validate_policy_file
  file_parts path digest h =
      let (raw, loaded, h₁) = >>=-eq-ok _ _ h in
      let (u, valid, hashed) = >>=-eq-ok _ _ h₁ in (raw, loaded, valid, hashed)

  digest_of_file :
      ((s : String) → IsHexDigest platform (platform.sha256_hex s))
      → (path digest : String) → validate_policy_file platform host path ≡ ok digest
      → IsHexDigest platform digest
  unfolding compute_policy_sha256
  digest_of_file hex path digest h =
      let (raw, loaded, valid, hashed) = file_parts path digest h in
      let (text, canonical, same) = >>=-eq-ok (canonical_policy_json platform raw) _ hashed in
      let e : platform.sha256_hex text ≡ digest = cc in rw (sym e) (hex text)

  verify_parts :
      (policy_path path digest : String)
      → verify_policy_file_hash platform host policy_path path ≡ ok digest
      → (validate_policy_file platform host policy_path ≡ ok digest)
        × (read_expected_hash platform host path ≡ ok digest)
  unfolding verify_policy_file_hash
  verify_parts policy_path path digest h =
      let (actual, valid, h₁) = >>=-eq-ok (validate_policy_file platform host policy_path) _ h in
      let (expected, read, h₂) = >>=-eq-ok (read_expected_hash platform host path) _ h₁ in
      (ground arith, ground arith)

  -- If iterating a set of keys yields exactly its members, and `main` without --write-hash exits
  -- with 0, then the policy file is sound and the hash on file is that of its canonical form.
  pub main_of_success :
      IsSetOrder platform
      → (policy_path path : String) → IsSuccess (main platform host policy_path path false)
      → (raw : Fields) × (load_policy_yaml host policy_path ≡ ok raw)
        × IsSoundPolicy raw
        × (compute_policy_sha256 platform raw ≡ read_expected_hash platform host path)
  unfolding main check_hash invalid_policy hash_mismatch
  main_of_success ordered policy_path path h =
      let (digest, valid, h₁) =
        on_refusal-IsSuccess (validate_policy_file platform host policy_path) invalid_policy
          (check_hash platform host policy_path path) (λ m. refl) h in
      let (digest', verified, h₂) =
        on_refusal-IsSuccess (verify_policy_file_hash platform host policy_path path)
          (hash_mismatch policy_path digest) (λ same. ok (hash_matches policy_path path digest))
          (λ m. refl) h₁ in
      let (same, read) = verify_parts policy_path path digest' verified in
      let (raw, loaded, invariants, hashed) = file_parts policy_path digest' same in
      (
        raw,
        loaded,
        (validate_policy_invariants_iff platform ordered raw).0 invariants,
        hashed ∙ sym read,
      )

module _ (platform : Platform)
    (hex : (s : String) → IsHexDigest platform (platform.sha256_hex s)) where
  load_policy_yaml-written :
      (before after : Host) {policy_path path text : String}
      → IsWritten before after policy_path path text
      → load_policy_yaml after policy_path ≡ load_policy_yaml before policy_path
  unfolding load_policy_yaml
  load_policy_yaml-written before after w = rw (w.still_file, w.still_text, w.still_parsed) refl

  validate_policy_file-written :
      (before after : Host) {policy_path path text : String}
      → IsWritten before after policy_path path text
      → validate_policy_file platform after policy_path
        ≡ validate_policy_file platform before policy_path
  unfolding validate_policy_file
  validate_policy_file-written before after w = rw (load_policy_yaml-written before after w) refl

  -- If digests of sha256 are 64 hexadecimal digits that `lower` leaves alone, the policy file is
  -- valid, and the write of the hash file returns, then `main --write-hash` exits with 0 and writes
  -- the digest; and `main` without it, once the digest is in the hash file and the policy file is as
  -- before, exits with 0 too.
  pub main-written :
      (before after : Host) (policy_path path digest : String)
      → validate_policy_file platform before policy_path ≡ ok digest
      → IsWritten before after policy_path path (digest <> "\n")
      → (main platform before policy_path path true ≡ ok (hash_written policy_path path digest))
        × (main platform after policy_path path false ≡ ok (hash_matches policy_path path digest))
  unfolding main check_hash on_refusal verify_policy_file_hash
  main-written before after policy_path path digest valid w =
      let still : validate_policy_file platform after policy_path ≡ ok digest =
        validate_policy_file-written before after w ∙ valid in
      let read =
        read_expected_hash-written platform after path digest w.file w.contents
          (digest_of_file platform before hex policy_path digest valid) in
      (rw (valid, w.written) refl, ground (arith, still, read))
