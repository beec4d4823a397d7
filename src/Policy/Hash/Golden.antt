-- ===== src/Policy/Hash/Golden.antt =====
-- src/agent_control_plane/policy_integrity.py and scripts/validate_policy.py: a hash on file.
use llm_agent_control_plane.Base.{
  String, ◌<>◌, Char, code, true, false, [], ◌∷◌, ◌≡◌, refl, string_eq, arith, eqb, ok, is_space,
  length, has_no_space, strip_whole, first_word_whole, split_lines_whole, truthy, starts_with,
}
use llm_agent_control_plane.Platform.{Platform}
use llm_agent_control_plane.Host.{Host}
use llm_agent_control_plane.Policy.Hash.{
  is_hex, all_hex, first_hash, hash_of_line, read_expected_hash,
}

-- A digest is 64 lower-case hexadecimal digits, and `lower` leaves such texts alone.
pub record IsHexDigest (platform : Platform) (digest : String) : Type 0 where
  pub size : length digest ≡ 64
  pub hex : all_hex digest ≡ true
  pub is_lower : platform.lower digest ≡ digest

hex-space : (c : Char) → is_hex c ≡ true → is_space c ≡ false
unfolding is_hex is_space
hex-space c h = ground arith

hex-comment : (c : Char) → is_hex c ≡ true → eqb (code c) b'#' ≡ false
unfolding is_hex
hex-comment c h = ground arith

hex_head :
    (c : Char) (s : String)
    → all_hex (String.◌∷◌ c s) ≡ true
    → (is_hex c ≡ true) × (all_hex s ≡ true)
unfolding all_hex
hex_head c s h = ground arith

all_hex-has_no_space : (s : String) → all_hex s ≡ true → has_no_space s ≡ true
unfolding has_no_space
all_hex-has_no_space String.[] h = refl
all_hex-has_no_space (String.◌∷◌ c s) h =
    let (head, rest) = hex_head c s h in rw (hex-space c head) (all_hex-has_no_space s rest)

all_hex-not_comment : (s : String) → all_hex s ≡ true → starts_with s "#" ≡ false
unfolding starts_with
all_hex-not_comment String.[] h = refl
all_hex-not_comment (String.◌∷◌ c s) h = rw (hex-comment c (hex_head c s h).0) refl

length-truthy : (s : String) → length s ≡ 64 → truthy s ≡ true
unfolding length
length-truthy String.[] h = absurd (ground arith)
length-truthy (String.◌∷◌ c s) h = refl

module _ (platform : Platform) where
  first_hash-digest :
      (path digest : String)
      → IsHexDigest platform digest
      → first_hash platform path (digest ∷ []) ≡ ok digest
  unfolding first_hash hash_of_line
  first_hash-digest path digest d =
      let solid = all_hex-has_no_space digest d.hex in
      rw
        (
          strip_whole digest solid,
          length-truthy digest d.size,
          all_hex-not_comment digest d.hex,
          first_word_whole digest solid,
          d.is_lower,
          d.size,
          d.hex,
        )
        refl

  -- A digest that is written to a file with a new line is read back from it.
  pub read_expected_hash-written :
      (host : Host) (path digest : String)
      → host.is_file path ≡ true
      → host.read_text path ≡ ok (digest <> "\n")
      → IsHexDigest platform digest
      → read_expected_hash platform host path ≡ ok digest
  unfolding read_expected_hash
  read_expected_hash-written host path digest file contents d =
      rw (file, contents, split_lines_whole digest (all_hex-has_no_space digest d.hex))
        (first_hash-digest path digest d)
