-- ===== src/Api/Authentication.antt =====
-- src/agent_control_plane/api.py: which requests reach the pipeline.
use llm_agent_control_plane.Base.{
  ℤ, ltbℤ, String, true, false, Option, none, some, [], ◌∷◌, ◌≡◌, refl, ◌⊎◌, inl, inr, In, contains,
  contains_iff, string_eq, arith, Bool-cases, Option-cases, Result, ok, raised, os_error,
}
use llm_agent_control_plane.Platform.{Platform}
use llm_agent_control_plane.Host.{Host}
use llm_agent_control_plane.Config.{AppConfig, production_error_detail}
use llm_agent_control_plane.Audit.{write, write_operational_audit}
use llm_agent_control_plane.Pipeline.{World, Clock}
use llm_agent_control_plane.Api.{
  RunRequestBody, HttpRequest, Response, detail_response, App, extract_api_key, within_limit,
  dispatch, is_accepted, require_api_key, run_turn, respond, after_dependency, post_run,
  log_refusal, unhandled_exception_handler, http_exception, unforeseen, payload, after_refusal,
  answered, endpoint,
}

module _ (platform : Platform) (host : Host) (clock : Clock) where
  -- The middleware looks at the length of such a request.
  abbrev pub HasBody : HttpRequest → Type 0
  HasBody http = contains ("POST" ∷ "PUT" ∷ "PATCH" ∷ []) http.method ≡ true

  -- If the request has a body and says how long it is, the length is a number within the limit. A
  -- request that does not say it counts as within, however long its body is.
  abbrev pub IsWithinLimit : ℤ → HttpRequest → Type 0
  IsWithinLimit max_body_bytes http =
      HasBody http
      → (s : String) → http.content_length ≡ some s
      → (size : ℤ) × (host.int_of s ≡ some size) × (ltbℤ max_body_bytes size ≡ false)

  -- The length that the request gives is not a number.
  abbrev pub IsGarbled : HttpRequest → Type 0
  IsGarbled http =
      HasBody http × (s : String) × (http.content_length ≡ some s) × (host.int_of s ≡ none)

  -- It is a number above the limit.
  abbrev pub IsTooLarge : ℤ → HttpRequest → Type 0
  IsTooLarge max_body_bytes http =
      HasBody http
      × (s : String) × (http.content_length ≡ some s)
      × (size : ℤ) × (host.int_of s ≡ some size)
      × (ltbℤ max_body_bytes size ≡ true)

  -- If keys are asked for, the request presents one of them.
  abbrev pub IsAuthenticated : AppConfig → HttpRequest → Type 0
  IsAuthenticated config http =
      config.require_api_auth ≡ true
      → (key : String) × (extract_api_key platform http.x_api_key http.authorization ≡ some key)
        × In key config.api_keys

  -- Answered with the refusal, or with 500 where the refusal cannot be written to the audit file;
  -- the registry of used approvals is as it was.
  abbrev pub IsRefusedWith : AppConfig → World → Response → Response × World → Type 0
  IsRefusedWith config w refusal answer =
      (((clock.audit_fault ≡ none) × (answer.0 ≡ refusal))
        ⊎ ((message : String) × (clock.audit_fault ≡ some message)
            × (answer.0 ≡ record {
              status_code = 500;
              content = payload (production_error_detail host config (os_error message));
            })))
      × (answer.1.used ≡ w.used)

  is_accepted_iff :
      (config : AppConfig) (presented : Option String)
      → is_accepted platform host clock config presented ≡ true
      → (key : String) × (presented ≡ some key) × In key config.api_keys
  unfolding is_accepted
  is_accepted_iff config none h = absurd (cc h)
  is_accepted_iff config (some key) h = (key, refl, (contains_iff config.api_keys key).0 h)

  is_accepted-In :
      (config : AppConfig) (presented : Option String) (key : String)
      → presented ≡ some key
      → In key config.api_keys
      → is_accepted platform host clock config presented ≡ true
  unfolding is_accepted
  is_accepted-In config presented key e m = rw e ((contains_iff config.api_keys key).1 m)

  -- The dependency lets the request through and changes nothing, or refuses it.
  require_api_key-cases :
      (config : AppConfig) (http : HttpRequest) (w : World)
      → (IsAuthenticated config http
          × (require_api_key platform host clock config http w ≡ (none, w)))
        ⊎ ((¬ IsAuthenticated config http)
            × (require_api_key platform host clock config http w
                ≡ after_refusal platform host clock
                    (log_refusal platform host clock http "api-unauthenticated" "api_auth_failure"
                      "api_auth" "unauthorized" w)
                    (some (http_exception 401 "unauthorized"))
                    (λ e. some (unforeseen e))))
  unfolding require_api_key
  require_api_key-cases config http w = elim (Bool-cases config.require_api_auth) [
    | inr free ↦ inl (λ asked. absurd (cc (free, asked)), rw free refl)
    | inl asked ↦
        elim (Bool-cases (
          is_accepted platform host clock config
            (extract_api_key platform http.x_api_key http.authorization))) [
              | inl good ↦ inl (λ _. is_accepted_iff config _ good, rw (asked, good) refl)
              | inr bad ↦ inr (
                λ authenticated.
                    let (key, e, m) = authenticated asked in
                    absurd (cc (is_accepted-In config _ key e m, bad)),
                rw (asked, bad) refl,
              )
            ]
  ]

  -- The middleware passes the request on, or refuses it.
  dispatch-cases :
      (max_body_bytes : ℤ) (http : HttpRequest) (call_next : World → Result Response × World)
      (w : World)
      → (IsWithinLimit max_body_bytes http
          × (dispatch platform host clock max_body_bytes http call_next w ≡ call_next w))
        ⊎ (IsGarbled http
            × (dispatch platform host clock max_body_bytes http call_next w
                ≡ (ok (detail_response 400 "invalid_content_length"), w)))
        ⊎ (IsTooLarge max_body_bytes http
            × (dispatch platform host clock max_body_bytes http call_next w
                ≡ after_refusal platform host clock
                    (log_refusal platform host clock http "api-body-limit"
                      "request_body_limit_blocked" "api_middleware" "request_entity_too_large" w)
                    (ok (detail_response 413 "request_entity_too_large"))
                    raised))
  unfolding dispatch within_limit
  dispatch-cases max_body_bytes http call_next w =
      elim (Bool-cases (contains ("POST" ∷ "PUT" ∷ "PATCH" ∷ []) http.method)) [
        | inr other ↦ inl (λ method. absurd (cc (other, method)), rw other refl)
        | inl method ↦ elim (Option-cases http.content_length) [
          | inl unsaid ↦ inl (λ _ s e. absurd (ground (arith, e, unsaid)), rw (method, unsaid) refl)
          | inr (s, said) ↦ elim (Option-cases (host.int_of s)) [
            | inl garbled ↦ inr (inl ((method, s, said, garbled), rw (method, said, garbled) refl))
            | inr (size, parsed) ↦ elim (Bool-cases (ltbℤ max_body_bytes size)) [
              | inl large ↦ inr (
                  inr
                    ((method, s, said, size, parsed, large), rw (method, said, parsed, large) refl))
              | inr small ↦ inl (
                λ _ s' e. (size, ground (arith, e, said, parsed), small),
                rw (method, said, parsed, small) refl,
              )
            ]
          ]
        ]
      ]

  -- The refusal of the middleware as it is answered, and that of the dependency.
  too_large-IsRefusedWith :
      (app : App) (http : HttpRequest) (fallback event_type stage reason : String)
      (refusal : Response) (w : World)
      → IsRefusedWith app.config w refusal (
          answered platform host clock app (
            after_refusal platform host clock
              (log_refusal platform host clock http fallback event_type stage reason w)
              (ok refusal)
              raised))
  unfolding answered after_refusal log_refusal write_operational_audit write
      unhandled_exception_handler
  too_large-IsRefusedWith app http fallback event_type stage reason refusal w =
      elim (Option-cases clock.audit_fault) [
        | inl sound ↦ rw sound (inl (refl, refl), refl)
        | inr (message, broken) ↦ rw broken (inr (message, refl, refl), refl)
      ]

  unknown-IsRefusedWith :
      (app : App) (http : HttpRequest) (body : RunRequestBody)
      (fallback event_type stage reason : String) (w : World)
      → IsRefusedWith app.config w (detail_response 401 "unauthorized") (
          after_dependency platform host clock app http body (
            after_refusal platform host clock
              (log_refusal platform host clock http fallback event_type stage reason w)
              (some (http_exception 401 "unauthorized"))
              (λ e. some (unforeseen e))))
  unfolding after_dependency after_refusal log_refusal write_operational_audit write
      unhandled_exception_handler
  unknown-IsRefusedWith app http body fallback event_type stage reason w =
      elim (Option-cases clock.audit_fault) [
        | inl sound ↦ rw sound (inl (refl, refl), refl)
        | inr (message, broken) ↦ rw broken (inr (message, refl, refl), refl)
      ]

  -- POST /run: a request whose Content-Length, if it has one, is a number within the limit and that
  -- presents one of the keys, where keys are asked for, gets the answer to the turn that it asks
  -- for. One whose Content-Length is not a number gets 400 "invalid_content_length"; one whose
  -- Content-Length is above the limit 413 "request_entity_too_large"; one within the limit that
  -- presents none of the keys asked for 401 "unauthorized"; where a refusal with 413 or 401 cannot
  -- be written to the audit file, the answer is 500 instead. None of these consumes an approval. A
  -- request without Content-Length counts as within the limit, however long its body is.
  pub post_run-cases :
      (app : App) (http : HttpRequest) (body : RunRequestBody) (w : World)
      → (IsWithinLimit app.config.max_request_body_bytes http
          × IsAuthenticated app.config http
          × (post_run platform host clock app http body w
              ≡ respond platform host clock app
                  (run_turn platform host clock app body http.x_correlation_id w)))
        ⊎ (IsGarbled http
            × (post_run platform host clock app http body w
                ≡ (detail_response 400 "invalid_content_length", w)))
        ⊎ (IsTooLarge app.config.max_request_body_bytes http
            × IsRefusedWith app.config w
                (detail_response 413 "request_entity_too_large")
                (post_run platform host clock app http body w))
        ⊎ (IsWithinLimit app.config.max_request_body_bytes http
            × (¬ IsAuthenticated app.config http)
            × IsRefusedWith app.config w
                (detail_response 401 "unauthorized")
                (post_run platform host clock app http body w))
  unfolding post_run answered endpoint after_dependency
  post_run-cases app http body w =
      elim (dispatch-cases app.config.max_request_body_bytes http
        (endpoint platform host clock app http body) w) [
          | inr (inl (garbled, refused)) ↦ inr (inl (garbled, rw refused refl))
          | inr (inr (large, refused)) ↦
              inr (inr (inl (large, rw refused (too_large-IsRefusedWith app http _ _ _ _ _ w))))
          | inl (within, passed) ↦ elim (require_api_key-cases app.config http w) [
            | inl (known, through) ↦ inl (within, known, rw (passed, through) refl)
            | inr (unknown, stopped) ↦ inr (
                inr (
                  inr (
                    within,
                    unknown,
                    rw (passed, stopped) (unknown-IsRefusedWith app http body _ _ _ _ w),
                  )))
          ]
        ]
