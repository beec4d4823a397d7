-- ===== src/Policy/Hash.antt =====
-- src/agent_control_plane/policy_integrity.py: the canonical form of a policy file, its hash, and
-- the check against the hash on file; and scripts/validate_policy.py, which calls them.
pub mod Reordering
pub mod Golden
use llm_agent_control_plane.Base.{
  ◌>>◌, ℕ, zero, suc, String, ◌<>◌, Bool, true, false, not, ◌&&◌, ◌||◌, Option, none, some, List,
  [], ◌∷◌, ◌==◌, ◌!=◌, string_eq, contains, Result, ok, raised, ◌>>=◌, Exc, policy_integrity_error,
  if◌then◌else◌, truthy, strip, starts_with, split_lines, first_word, length, eqb, leb, Char, code,
}
use llm_agent_control_plane.Models.{
  Value, Items, Fields, null, str, bool, arr, obj, nil, cons, end, field, get, strs,
}
use llm_agent_control_plane.Platform.{Platform, text_of}
use llm_agent_control_plane.Host.{Host}
use llm_agent_control_plane.Json.{sorted, canonical_json}
use llm_agent_control_plane.Policy.Validation.{
  refuse, require, keys_of, value_at, bool_keys, is_bool, load_policy_yaml,
  validate_policy_invariants,
}

-- `raw.get(key)` as a value of the payload
unfoldable pub value_or_null : Option Value → Value
value_or_null none = null
value_or_null (some v) = v

module _ (platform : Platform) where
  -- `[str(item) for item in value]`
  unfoldable pub texts_of : Items → List String
  texts_of nil = []
  texts_of (cons v vs) = text_of platform v ∷ texts_of vs

  canonical_roles : Value → Result Value
  unfolding texts_of
  canonical_roles (arr vs) = ok (arr (strs (sorted (texts_of vs))))
  canonical_roles v = refuse "allowed_roles must be a list"

  -- `_canonical_tool_value`
  unfoldable pub canonical_tool_value : String → Value → Result Value
  unfolding canonical_roles
  canonical_tool_value key value =
      if key == "allowed_roles"
      then canonical_roles value
      else if contains bool_keys key
      then (if is_bool value then ok value else refuse (key <> " must be a boolean"))
      else if key == "risk_level"
      then ok (str (text_of platform value))
      else ok value

  -- `{key: _canonical_tool_value(key, cfg[key]) for key in keys}`
  unfoldable pub canonical_settings : List String → Fields → Result Fields
  canonical_settings [] cfg = ok end
  canonical_settings (key ∷ keys) cfg = do
    value ← value_at key cfg
    canonical ← canonical_tool_value key value
    rest ← canonical_settings keys cfg
    ok (field key canonical rest)

  unfoldable pub canonical_tool : String → Value → Result Fields
  canonical_tool name (obj cfg) = canonical_settings (sorted (keys_of cfg)) cfg
  canonical_tool name v = refuse ("tool " <> (platform.repr name <> " must be a mapping"))

  -- The loop over the names of the tools.
  unfoldable pub canonical_tools : List String → Fields → Result Fields
  canonical_tools [] tools_raw = ok end
  canonical_tools (name ∷ names) tools_raw = do
    cfg ← value_at name tools_raw
    canonical ← canonical_tool name cfg
    rest ← canonical_tools names tools_raw
    ok (field name (obj canonical) rest)

  unfoldable pub canonical_mapping : Option Value → Result Fields
  canonical_mapping (some (obj tools_raw)) = canonical_tools (sorted (keys_of tools_raw)) tools_raw
  canonical_mapping v = refuse "tools must be a mapping"

  -- `canonical_policy_payload`
  unfoldable pub canonical_policy_payload : Fields → Result Value
  unfolding value_or_null
  canonical_policy_payload raw = do
    tools ← canonical_mapping (get "tools" raw)
    ok (
        obj (
          field "default_decision" (value_or_null (get "default_decision" raw)) (
            field "tenant_isolation" (value_or_null (get "tenant_isolation" raw))
              (field "tools" (obj tools) end))))

  -- `canonical_policy_json`
  unfoldable pub canonical_policy_json : Fields → Result String
  canonical_policy_json raw = do payload ← canonical_policy_payload raw; ok (canonical_json payload)

  -- `compute_policy_sha256`
  unfoldable pub compute_policy_sha256 : Fields → Result String
  compute_policy_sha256 raw = do text ← canonical_policy_json raw; ok (platform.sha256_hex text)

-- `c in "0123456789abcdef"`
unfoldable pub is_hex : Char → Bool
is_hex c = let n = code c in (leb b'0' n && leb n b'9') || (leb b'a' n && leb n b'f')

unfoldable pub all_hex : String → Bool
unfolding is_hex
all_hex String.[] = true
all_hex (String.◌∷◌ c s) = is_hex c && all_hex s

module _ (platform : Platform) (path : String) where
  -- What the loop of `read_expected_hash` does with the first line that counts.
  unfoldable pub hash_of_line : String → Result String
  hash_of_line stripped =
      let token = platform.lower (first_word stripped) in
      if not (eqb (length token) 64) || not (all_hex token)
      then refuse ("invalid hash in " <> (path <> (": " <> platform.repr stripped)))
      else ok token

  unfoldable pub first_hash : List String → Result String
  unfolding hash_of_line
  first_hash [] = refuse ("no hash found in " <> path)
  first_hash (line ∷ lines) =
      let later = first_hash lines in
      let stripped = strip line in
      if not (truthy stripped) || starts_with stripped "#" then later else hash_of_line stripped

module _ (platform : Platform) (host : Host) where
  -- `read_expected_hash`
  unfoldable pub read_expected_hash : String → Result String
  read_expected_hash path =
      if not (host.is_file path)
      then refuse ("expected hash file not found: " <> path)
      else do text ← host.read_text path; first_hash platform path (split_lines text)

  -- `validate_policy_file`
  unfoldable pub validate_policy_file : String → Result String
  validate_policy_file path = do
    raw ← load_policy_yaml host path
    validate_policy_invariants platform raw
    compute_policy_sha256 platform raw

  -- `verify_policy_file_hash`
  unfoldable pub verify_policy_file_hash : String → String → Result String
  verify_policy_file_hash policy_path hash_path = do
    actual ← validate_policy_file policy_path
    expected ← read_expected_hash hash_path
    if actual != expected
        then refuse ("policy hash mismatch: expected " <> (expected <> (", got " <> actual)))
        else ok actual
