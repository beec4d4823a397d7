-- ===== src/Api/Startup.antt =====
-- src/agent_control_plane/api.py and config.py: starting in production without a key.
use llm_agent_control_plane.Base.{
  ℕ, ℤ, pos, String, ◌<>◌, none, [], ◌≡◌, refl, ◌⊎◌, inl, inr, arith, Bool-cases, Option-cases,
  Result, ok, raised, ◌>>=◌, configuration_error, runtime_error, join, strip, string_eq,
}
use llm_agent_control_plane.Platform.{Platform}
use llm_agent_control_plane.Host.{Host}
use llm_agent_control_plane.Agent.{simulated, disabled_external}
use llm_agent_control_plane.Config.{AppConfig, production, is_empty, errors_of, validate}
use llm_agent_control_plane.Config.Laws.{validate_iff}
use llm_agent_control_plane.Config.Environment.{
  env_int, load_api_keys, inline_keys, mode_of, adapter_mode_of, environ_or, optional_path,
  load_config_from_env,
}
use llm_agent_control_plane.Api.{create_app, as_runtime_error, get_app}

abbrev IsConfigError {ℓ} : {A : Type ℓ} → Result A → Type ℓ
IsConfigError r = (message : String) × (r ≡ raised (configuration_error message))

abbrev IsKnown {ℓ} : {A : Type ℓ} → Result A → Type ℓ
IsKnown {A = A} r = ((x : A) × (r ≡ ok x)) ⊎ IsConfigError r

adapter_mode_of-IsKnown : (raw : String) → IsKnown (adapter_mode_of raw)
unfolding adapter_mode_of
adapter_mode_of-IsKnown raw = elim (string_eq.dec raw "simulated") [
  | yes e ↦ inl (simulated, ground arith)
  | no n ↦ elim (string_eq.dec raw "disabled_external") [
    | yes e ↦ inl (disabled_external, ground arith)
    | no n' ↦ inr ("invalid ACP_LLM_ADAPTER_MODE: " <> raw, ground arith)
  ]
]

module _ (platform : Platform) (host : Host) where
  env_int-IsKnown : (name : String) (default : ℤ) → IsKnown (env_int platform host name default)
  unfolding env_int
  env_int-IsKnown name default = elim (Option-cases (host.environ name)) [
    | inl unset ↦ inl (default, rw (unset, env_int) refl)
    | inr (raw, given) ↦ elim (Option-cases (host.int_of raw)) [
      | inl garbled ↦ inr ("invalid integer for " <> name, rw (given, garbled, env_int) refl)
      | inr (i, parsed) ↦ inl (i, rw (given, parsed, env_int) refl)
    ]
  ]

  validate-IsKnown : (config : AppConfig) → IsKnown (validate host config)
  unfolding validate
  validate-IsKnown config = elim (Bool-cases (is_empty (errors_of host config))) [
    | inl fine ↦ inl (tt, rw fine refl)
    | inr wrong ↦ inr (join "; " (errors_of host config), rw wrong refl)
  ]

  validate-of_no_key :
      (config : AppConfig)
      → config.environment_mode ≡ production
      → config.api_keys ≡ []
      → IsConfigError (validate host config)
  validate-of_no_key config mode keys = elim (validate-IsKnown config) [
    | inr wrong ↦ wrong
    | inl (u, fine) ↦ absurd ((((validate_iff host config).0 fine).ready mode).keyed keys)
  ]

  -- What the environment says: production, and no key.
  pub record IsKeyless : Type 0 where
    pub mode : platform.lower (strip (environ_or host "ACP_ENVIRONMENT" "local")) ≡ "production"
    pub no_file : host.environ "ACP_ALLOWED_API_KEYS_FILE" ≡ none
    pub no_key : host.environ "ACP_API_KEY" ≡ none

  -- A configuration for production without a key, or a ConfigurationError.
  abbrev LoadsKeyless : Result AppConfig → Type 0
  LoadsKeyless (ok config) = (config.environment_mode ≡ production) × (config.api_keys ≡ [])
  LoadsKeyless (raised (configuration_error m)) = Unit
  LoadsKeyless (raised e) = ⊥

  load-LoadsKeyless :
      (repo_root : String) → IsKeyless → LoadsKeyless (load_config_from_env platform host repo_root)
  unfolding load_config_from_env mode_of load_api_keys inline_keys optional_path string_eq
  load-LoadsKeyless repo_root k =
      elim (adapter_mode_of-IsKnown
        (platform.lower (strip (environ_or host "ACP_LLM_ADAPTER_MODE" "simulated")))) [
          | inr (m, e) ↦ rw (k.mode, k.no_file, k.no_key, e) tt
          | inl (adapter, e) ↦ elim (env_int-IsKnown "ACP_MAX_REQUEST_BODY_BYTES" (pos 1048576)) [
            | inr (m, e₁) ↦ rw (k.mode, k.no_file, k.no_key, e, e₁) tt
            | inl (size, e₁) ↦ elim (env_int-IsKnown "ACP_AUDIT_RETENTION_DAYS" (pos 90)) [
              | inr (m, e₂) ↦ rw (k.mode, k.no_file, k.no_key, e, e₁, e₂) tt
              | inl (days, e₂) ↦ rw (k.mode, k.no_file, k.no_key, e, e₁, e₂) (refl, refl)
            ]
          ]
        ]

  refused_of_keyless :
      (elapsed_ms : ℕ) (r : Result AppConfig)
      → LoadsKeyless r
      → IsConfigError (r >>= create_app platform host elapsed_ms)
  unfolding create_app
  refused_of_keyless elapsed_ms (ok config) (mode, keys) =
      let (m, refused) = validate-of_no_key config mode keys in (m, rw refused refl)
  refused_of_keyless elapsed_ms (raised (configuration_error m)) u = (m, refl)
  refused_of_keyless elapsed_ms (raised e) h = absurd h

  -- When the environment says production and names no API key and no file of keys, `get_app` raises
  -- RuntimeError, and no application is remembered.
  pub get_app-of_no_key :
      (elapsed_ms : ℕ) (repo_root : String)
      → IsKeyless
      → (message : String) × (get_app platform host elapsed_ms repo_root none
          ≡ (raised (runtime_error message), none))
  unfolding get_app as_runtime_error
  get_app-of_no_key elapsed_ms repo_root k =
      let (m, refused) =
        refused_of_keyless elapsed_ms (load_config_from_env platform host repo_root)
          (load-LoadsKeyless repo_root k) in
      (m, rw refused refl)
