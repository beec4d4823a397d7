-- ===== src/Tests/ConfigWitnesses.antt =====
-- The theorems about configurations at concrete data.
use llm_agent_control_plane.Base.{
  String, none, some, [], ◌∷◌, ◌≡◌, refl, ◌↔◌, ok, raised, string_eq, option_eq, list_eq, is_space,
  strip,
}
use llm_agent_control_plane.Models.{trust_eq, source_eq}
use llm_agent_control_plane.Filter.{destination_eq, sensitivity_eq}
use llm_agent_control_plane.Config.{is_empty, validate}
use llm_agent_control_plane.Config.Environment.{load_api_keys, inline_keys, add_key}
use llm_agent_control_plane.Config.Laws.{IsValid, validate_iff}
use llm_agent_control_plane.Config.Secrecy.{
  with_keys, validate-with_keys, AllGiven, load_api_keys-AllGiven,
}
use llm_agent_control_plane.Host.{Host}
use llm_agent_control_plane.Api.Startup.{get_app-of_no_key}
use llm_agent_control_plane.Api.{get_app}
use llm_agent_control_plane.Config.Environment.{environ_or}
use llm_agent_control_plane.Base.{◌==◌, if◌then◌else◌, runtime_error}
use llm_agent_control_plane.Tests.Files.{digesting, files}
use llm_agent_control_plane.Tests.Requests.{config}

validate_iff_example : (validate files config ≡ ok tt) ↔ IsValid files config
validate_iff_example = validate_iff files config

validate-with_keys_example :
    validate files (with_keys files config ("another" ∷ "two" ∷ [])) ≡ validate files config
unfolding is_empty
validate-with_keys_example = validate-with_keys files config ("another" ∷ "two" ∷ []) refl

load_api_keys-AllGiven_example : AllGiven ("key-1" ∷ [])
unfolding load_api_keys inline_keys add_key strip is_space string_eq
load_api_keys-AllGiven_example =
    load_api_keys-AllGiven files none (some " key-1 ") ("key-1" ∷ []) refl

abbrev keyless : Host
keyless = record files {
  environ = λ name. if name == "ACP_ENVIRONMENT" then some "production" else none;
}

get_app-of_no_key_example :
    (message : String) × (get_app digesting keyless 3 "/repo" none
      ≡ (raised (runtime_error message), none))
unfolding environ_or strip is_space string_eq
get_app-of_no_key_example =
    get_app-of_no_key digesting keyless 3 "/repo"
      (record { mode = refl; no_file = refl; no_key = refl })
