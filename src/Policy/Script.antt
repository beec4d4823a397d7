-- ===== src/Policy/Script.antt =====
-- scripts/validate_policy.py: `main`, from the arguments that argparse gives it, the paths resolved.
-- A run is its exit code, what it prints, and the file that it writes, if it does.
pub mod Golden
use llm_agent_control_plane.Base.{
  ℕ, String, ◌<>◌, Bool, Option, none, some, List, [], ◌∷◌, Result, ok, raised, Exc, value_error,
  key_error, llm_adapter_error, configuration_error, policy_integrity_error, type_error, os_error,
  yaml_error, validation_error, runtime_error, overflow_error, if◌then◌else◌,
}
use llm_agent_control_plane.Platform.{Platform}
use llm_agent_control_plane.Host.{Host}
use llm_agent_control_plane.Policy.Hash.{validate_policy_file, verify_policy_file_hash}

pub record Run : Type 0 where
  pub exit_code : ℕ
  pub out : List String
  pub err : List String
  -- The path and the text of `hash_path.write_text`.
  pub written : Option (String × String)

-- A step and the except clause for PolicyIntegrityError; every other exception goes through.
unfoldable pub on_refusal : Result String → (String → Run) → (String → Result Run) → Result Run
on_refusal (ok digest) failed rest = rest digest
on_refusal (raised (policy_integrity_error message)) failed rest = ok (failed message)
on_refusal (raised (llm_adapter_error m)) failed rest = raised (llm_adapter_error m)
on_refusal (raised (value_error m)) failed rest = raised (value_error m)
on_refusal (raised (key_error m)) failed rest = raised (key_error m)
on_refusal (raised (configuration_error m)) failed rest = raised (configuration_error m)
on_refusal (raised (os_error m)) failed rest = raised (os_error m)
on_refusal (raised (yaml_error m)) failed rest = raised (yaml_error m)
on_refusal (raised (validation_error m)) failed rest = raised (validation_error m)
on_refusal (raised (runtime_error m)) failed rest = raised (runtime_error m)
on_refusal (raised type_error) failed rest = raised type_error
on_refusal (raised overflow_error) failed rest = raised overflow_error

-- The lines that a valid file puts out.
abbrev pub valid_lines : String → String → List String
valid_lines policy_path digest =
    ("OK: policy schema and invariants valid (" <> (policy_path <> ")"))
    ∷ ("     canonical SHA-256: " <> digest)
    ∷ []

unfoldable pub invalid_policy : String → Run
invalid_policy message = record {
  exit_code = 1;
  out = [];
  err = ("FAIL: policy validation failed: " <> message) ∷ [];
  written = none;
}

unfoldable pub hash_mismatch : String → String → String → Run
hash_mismatch policy_path digest message = record {
  exit_code = 1;
  out = valid_lines policy_path digest;
  err =
      ("FAIL: " <> message)
      ∷ "Hint: if the policy changed intentionally, run python scripts/validate_policy.py --write-hash"
      ∷ [];
  written = none;
}

unfoldable pub hash_matches : String → String → String → Run
hash_matches policy_path hash_path digest = record {
  exit_code = 0;
  out =
      ("OK: policy schema and invariants valid (" <> (policy_path <> ")"))
      ∷ ("     canonical SHA-256: " <> digest)
      ∷ ("OK: hash matches " <> hash_path)
      ∷ [];
  err = [];
  written = none;
}

unfoldable pub hash_written : String → String → String → Run
hash_written policy_path hash_path digest = record {
  exit_code = 0;
  out =
      ("OK: policy schema and invariants valid (" <> (policy_path <> ")"))
      ∷ ("     canonical SHA-256: " <> digest)
      ∷ ("OK: wrote hash to " <> hash_path)
      ∷ [];
  err = [];
  written = some (hash_path, digest <> "\n");
}

module _ (platform : Platform) (host : Host) (policy_path hash_path : String) where
  unfoldable pub check_hash : String → Result Run
  unfolding on_refusal hash_mismatch hash_matches
  check_hash digest =
      on_refusal (verify_policy_file_hash platform host policy_path hash_path)
        (hash_mismatch policy_path digest) (λ same. ok (hash_matches policy_path hash_path digest))

  -- After `hash_path.write_text(...)`
  unfoldable pub after_write : String → Result (Unit {0}) → Result Run
  unfolding hash_written
  after_write digest (ok done) = ok (hash_written policy_path hash_path digest)
  after_write digest (raised e) = raised e

  -- `main`
  unfoldable pub main : (write_hash : Bool) → Result Run
  unfolding on_refusal invalid_policy after_write
  main write_hash =
      on_refusal (validate_policy_file platform host policy_path) invalid_policy λ digest.
        if write_hash
        then after_write digest (host.write_text hash_path (digest <> "\n"))
        else check_hash digest
