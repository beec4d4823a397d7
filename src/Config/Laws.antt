-- ===== src/Config/Laws.antt =====
-- src/agent_control_plane/config.py: what a valid configuration is, apart from the messages.
use llm_agent_control_plane.Base.{
  ℕ, ℤ, pos, negsuc, ltbℤ, ◌≤◌, String, Bool, true, false, not, ◌&&◌, ◌||◌, Option, none, some,
  List, [], ◌∷◌, ◌++◌, ◌≡◌, refl, sym, ◌∙◌, ◌↔◌, ◌≢◌, ◌⊎◌, inl, inr, In, contains, contains_iff,
  string_eq, arith, ok, if◌then◌else◌,
}
use llm_agent_control_plane.Host.{Host}
use llm_agent_control_plane.Config.{
  EnvironmentMode, local, test, production, AppConfig, complain, is_empty, key_file_errors,
  production_errors, mode_errors, errors_of, validate,
}

-- A whole number from low to high.
abbrev pub IsWithin : ℕ → ℕ → ℤ → Type 0
IsWithin low high i = (n : ℕ) × (i ≡ pos n) × (low ≤ n) × (n ≤ high)

-- What production asks for beyond the rest.
pub record IsProductionReady (host : Host) (config : AppConfig) : Type 0 where
  pub authenticated : config.require_api_auth ≡ true
  pub keyed : config.api_keys ≢ []
  pub origins : config.allowed_origins ≢ []
  pub no_wildcard : ¬ In "*" config.allowed_origins
  pub quiet : config.enable_debug_errors ≡ false
  pub signing :
      config.enable_strict_provenance ≡ true
      → (path : String) × (config.provenance_hmac_key_file ≡ some path) × (host.is_file path ≡ true)

pub record IsValid (host : Host) (config : AppConfig) : Type 0 where
  pub body_bytes : IsWithin 1024 10485760 config.max_request_body_bytes
  pub retention : IsWithin 1 3650 config.audit_retention_days
  pub policy : host.is_file config.policy_path ≡ true
  pub no_live_tools : config.allow_live_external_tools ≡ false
  pub no_shell : config.allow_shell_tools ≡ false
  pub no_live_llm : config.allow_live_llm_calls ≡ false
  pub ready : config.environment_mode ≡ production → IsProductionReady host config
  pub keyed : config.require_api_auth ≡ true → config.api_keys ≢ []

List-cases :
    (xs : List String) → (xs ≡ []) ⊎ ((x : String) × (rest : List String) × (xs ≡ x ∷ rest))
List-cases [] = inl refl
List-cases (x ∷ xs) = inr (x, xs, refl)

is_empty-complain :
    (given : Bool) (message : String) → is_empty (complain given message) ≡ not given
unfolding is_empty complain
is_empty-complain true message = refl
is_empty-complain false message = refl

is_empty-++ : (a b : List String) → is_empty (a ++ b) ≡ (is_empty a && is_empty b)
unfolding is_empty
is_empty-++ [] b = refl
is_empty-++ (x ∷ a) b = refl

is_empty_iff : (xs : List String) → (is_empty xs ≡ false) ↔ (xs ≢ [])
unfolding is_empty
is_empty_iff [] = (λ h. absurd (cc h), λ h. absurd (h refl))
is_empty_iff (x ∷ xs) = (λ h e. cc e, λ h. refl)

IsWithin-iff :
    (low high : ℕ) (i : ℤ)
    → ((ltbℤ i (pos low) ≡ false) × (ltbℤ (pos high) i ≡ false)) ↔ IsWithin low high i
IsWithin-iff low high (pos n) = (
  λ h. (n, refl, ground (arith), ground (arith)),
  λ (m, e, a, b). let same : n ≡ m = cc in rw same (ground arith, ground arith),
)
IsWithin-iff low high (negsuc n) = (λ h. absurd (cc (h.0)), λ (m, e, a, b). absurd (cc e))

module _ (host : Host) (config : AppConfig) where
  abbrev key_file_test : Option String → Bool
  key_file_test none = false
  key_file_test (some path) = host.is_file path

  is_empty-key_file_errors :
      (key_file : Option String) → is_empty (key_file_errors host key_file) ≡ key_file_test key_file
  unfolding key_file_errors is_empty
  is_empty-key_file_errors none = refl
  is_empty-key_file_errors (some path) = is_empty-complain _ _ ∙ ground arith

  key_file_iff :
      (key_file : Option String)
      → (key_file_test key_file ≡ true)
        ↔ ((path : String) × (key_file ≡ some path) × (host.is_file path ≡ true))
  key_file_iff none = (λ h. absurd (cc h), λ h. absurd (ground (arith, h.1)))
  key_file_iff (some path) =
      (λ h. (path, refl, h), λ (other, e, h). let same : path ≡ other = cc in rw same h)

  signing_test : Bool
  signing_test =
      not config.enable_strict_provenance || key_file_test config.provenance_hmac_key_file

  signing_errors :
      is_empty (
        if config.enable_strict_provenance
        then key_file_errors host config.provenance_hmac_key_file
        else [])
      ≡ signing_test
  unfolding signing_test is_empty
  signing_errors = ground (arith, is_empty-key_file_errors config.provenance_hmac_key_file)

  is_empty-production_errors : is_empty (production_errors host config) ≡ (
      not (not config.require_api_auth)
      && not (is_empty config.api_keys)
      && not (is_empty config.allowed_origins)
      && not (contains config.allowed_origins "*")
      && not config.enable_debug_errors
      && signing_test)
  unfolding production_errors
  is_empty-production_errors = simp (is_empty-++, is_empty-complain, signing_errors)

  production_errors_iff :
      (is_empty (production_errors host config) ≡ true) ↔ IsProductionReady host config
  unfolding signing_test
  production_errors_iff = (
    λ h.
        let k = sym is_empty-production_errors ∙ h in
        record {
          authenticated = ground arith;
          keyed = (is_empty_iff _).0 (ground arith);
          origins = (is_empty_iff _).0 (ground arith);
          no_wildcard = λ m. ground (arith, (contains_iff config.allowed_origins "*").1 m);
          quiet = ground arith;
          signing = λ strict. (key_file_iff _).0 (ground arith);
        },
    λ s.
        is_empty-production_errors
        ∙ ground (
          arith,
          s.authenticated,
          (is_empty_iff _).1 s.keyed,
          (is_empty_iff _).1 s.origins,
          contains_iff config.allowed_origins "*",
          s.no_wildcard,
          s.quiet,
          signed s,
        ),
  )
    where
      signed :
          IsProductionReady host config
          → config.enable_strict_provenance ≡ true
          → key_file_test config.provenance_hmac_key_file ≡ true
      signed s strict = (key_file_iff _).1 (s.signing strict)

  mode_errors_iff :
      (mode : EnvironmentMode)
      → (is_empty (mode_errors host config mode) ≡ true)
        ↔ (mode ≡ production → IsProductionReady host config)
  unfolding mode_errors is_empty
  mode_errors_iff production =
      (λ h e. production_errors_iff.0 h, λ h. production_errors_iff.1 (h refl))
  mode_errors_iff test = (λ h e. absurd (cc e), λ h. refl)
  mode_errors_iff local = (λ h e. absurd (cc e), λ h. refl)

  is_empty-errors_of : is_empty (errors_of host config) ≡ (
      not (ltbℤ config.max_request_body_bytes (pos 1024))
      && not (ltbℤ (pos 10485760) config.max_request_body_bytes)
      && not (ltbℤ config.audit_retention_days (pos 1))
      && not (ltbℤ (pos 3650) config.audit_retention_days)
      && not (not (host.is_file config.policy_path))
      && not config.allow_live_external_tools
      && not config.allow_shell_tools
      && not config.allow_live_llm_calls
      && is_empty (mode_errors host config config.environment_mode)
      && not (config.require_api_auth && is_empty config.api_keys))
  unfolding errors_of
  is_empty-errors_of = simp (is_empty-++, is_empty-complain)

  validate-is_empty_iff : (validate host config ≡ ok tt) ↔ (is_empty (errors_of host config) ≡ true)
  unfolding validate
  validate-is_empty_iff = ground arith

  -- `validate` lets a configuration through exactly if the body limit is 1024 to 10485760 bytes,
  -- the retention 1 to 3650 days, the policy file is there, live tools, shell tools and live model
  -- calls are off, there is a key wherever authentication is on, and in production authentication
  -- is on with a key, there are origins without the wildcard, debug errors are off, and strict
  -- provenance comes with a key file that is there.
  pub validate_iff : (validate host config ≡ ok tt) ↔ IsValid host config
  validate_iff = (
    λ h.
        let k = sym is_empty-errors_of ∙ validate-is_empty_iff.0 h in
        record {
          body_bytes = (IsWithin-iff _ _ _).0 (ground arith, ground arith);
          retention = (IsWithin-iff _ _ _).0 (ground arith, ground arith);
          policy = ground arith;
          no_live_tools = ground arith;
          no_shell = ground arith;
          no_live_llm = ground arith;
          ready = (mode_errors_iff config.environment_mode).0 (ground arith);
          keyed = λ auth. (is_empty_iff _).0 (ground arith);
        },
    λ v.
        let (body_low, body_high) = (IsWithin-iff _ _ _).1 v.body_bytes in
        let (days_low, days_high) = (IsWithin-iff _ _ _).1 v.retention in
        validate-is_empty_iff.1 (
          is_empty-errors_of
          ∙ ground (
            arith,
            v.policy,
            v.no_live_tools,
            v.no_shell,
            v.no_live_llm,
            (mode_errors_iff config.environment_mode).1 v.ready,
            keys_given v,
          )),
  )
    where
      keys_given :
          IsValid host config → config.require_api_auth ≡ true → is_empty config.api_keys ≡ false
      keys_given v auth = (is_empty_iff _).1 (v.keyed auth)
