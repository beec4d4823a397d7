-- ===== src/Config/Secrecy.antt =====
-- src/agent_control_plane/config.py: API keys and error details.
use llm_agent_control_plane.Base.{
  String, true, false, not, ◌||◌, Option, none, some, List, [], ◌∷◌, ◌≡◌, refl, ◌⊎◌, inl, inr, In,
  contains, string_eq, Bool-cases, truthy, strip, starts_with, split_lines, ok, >>=-eq-ok, Exc,
  if◌then◌else◌, all_space, all_space-strip,
}
use llm_agent_control_plane.Models.{str, end, field}
use llm_agent_control_plane.Host.{Host}
use llm_agent_control_plane.Config.{
  production, AppConfig, is_empty, production_errors, mode_errors, errors_of, validate,
  production_error_detail, EnvironmentMode, test, local,
}
use llm_agent_control_plane.Config.Laws.{validate_iff}
use llm_agent_control_plane.Config.Environment.{add_key, keys_of_lines, inline_keys, load_api_keys}

module _ (host : Host) (config : AppConfig) where
  abbrev pub with_keys : List String → AppConfig
  with_keys keys = record config { api_keys = keys }

  mode_errors-with_keys :
      (keys : List String) (mode : EnvironmentMode)
      → is_empty keys ≡ is_empty config.api_keys
      → mode_errors host (with_keys keys) mode ≡ mode_errors host config mode
  unfolding mode_errors production_errors
  mode_errors-with_keys keys production same = rw same refl
  mode_errors-with_keys keys test same = refl
  mode_errors-with_keys keys local same = refl

  -- What `validate` does, the message of its exception included, is the same for all nonempty sets
  -- of API keys, and the same for every set of keys of a configuration without one.
  pub validate-with_keys :
      (keys : List String)
      → is_empty keys ≡ is_empty config.api_keys
      → validate host (with_keys keys) ≡ validate host config
  unfolding validate errors_of
  validate-with_keys keys same =
      rw (same, mode_errors-with_keys keys config.environment_mode same) refl

  -- The detail of an unforeseen exception, under a configuration for production that `validate`
  -- lets through, is "internal_error", whatever the exception.
  pub production_error_detail-of_production :
      validate host config ≡ ok tt
      → config.environment_mode ≡ production
      → (e : Exc)
      → production_error_detail host config e ≡ field "detail" (str "internal_error") end
  unfolding production_error_detail
  production_error_detail-of_production valid mode e =
      let ready = ((validate_iff host config).0 valid).ready mode in rw ready.quiet refl

-- Every key has a character that is no space.
abbrev pub AllGiven : List String → Type 0
AllGiven keys = (key : String) → In key keys → all_space key ≡ false

add_key-AllGiven :
    (key : String) (keys : List String)
    → all_space key ≡ false
    → AllGiven keys
    → AllGiven (add_key key keys)
unfolding add_key
add_key-AllGiven key keys given all = elim (Bool-cases (contains keys key)) [
  | inl there ↦ rw there all
  | inr fresh ↦ rw fresh λ k m. elim m [ inl e ↦ rw e given | inr rest ↦ all k rest ]
]

keys_of_lines-AllGiven :
    (lines keys : List String) → AllGiven keys → AllGiven (keys_of_lines lines keys)
unfolding keys_of_lines
keys_of_lines-AllGiven [] keys all = all
keys_of_lines-AllGiven (line ∷ lines) keys all =
    keys_of_lines-AllGiven lines _
      (kept (Bool-cases (truthy (strip line))) (Bool-cases (starts_with (strip line) "#")))
  where
    kept :
        ((truthy (strip line) ≡ true) ⊎ (truthy (strip line) ≡ false))
        → ((starts_with (strip line) "#" ≡ true) ⊎ (starts_with (strip line) "#" ≡ false))
        → AllGiven (
            if not (truthy (strip line)) || starts_with (strip line) "#"
            then keys
            else add_key (strip line) keys)
    kept (inl given) (inr plain) =
        rw (given, plain) (add_key-AllGiven _ _ (all_space-strip line given) all)
    kept (inl given) (inl comment) = rw (given, comment) all
    kept (inr blank) s = rw blank all

inline_keys-AllGiven : (inline_key : Option String) → AllGiven (inline_keys inline_key)
unfolding inline_keys
inline_keys-AllGiven none = λ k m. elim m [ ]
inline_keys-AllGiven (some key) = elim (Bool-cases (truthy (strip key))) [
  | inl given ↦ rw given (add_key-AllGiven _ [] (all_space-strip key given) (λ k m. elim m [ ]))
  | inr blank ↦ rw blank (λ k m. elim m [ ])
]

-- No key that is loaded, from the environment or from the file, is blank: each has a character that
-- is no space.
pub load_api_keys-AllGiven :
    (host : Host) (keys_file inline_key : Option String) (keys : List String)
    → load_api_keys host keys_file inline_key ≡ ok keys
    → AllGiven keys
unfolding load_api_keys
load_api_keys-AllGiven host none inline_key keys h =
    let same : inline_keys inline_key ≡ keys = cc in rw same at (inline_keys-AllGiven inline_key)
load_api_keys-AllGiven host (some path) inline_key keys h = elim (Bool-cases (host.is_file path)) [
  | inr missing ↦ absurd (cc (rw missing at h))
  | inl there ↦
      let (text, read, made) = >>=-eq-ok (host.read_text path) _ (rw there at h) in
      let same : keys_of_lines (split_lines text) (inline_keys inline_key) ≡ keys = cc in
      rw same at (keys_of_lines-AllGiven (split_lines text) _ (inline_keys-AllGiven inline_key))
]
