-- ===== src/Api/Construction.antt =====
-- src/agent_control_plane/api.py and config.py: applications that `create_app` builds.
use llm_agent_control_plane.Base.{
  ℕ, String, some, ◌≡◌, refl, ap, ◌∙◌, ◌⊎◌, inl, inr, In, ok, raised, Exc, os_error, >>=-eq-ok,
}
use llm_agent_control_plane.Models.{PipelineResult}
use llm_agent_control_plane.Platform.{Platform}
use llm_agent_control_plane.Host.{Host}
use llm_agent_control_plane.Config.{AppConfig, production, validate}
use llm_agent_control_plane.Config.Laws.{validate_iff}
use llm_agent_control_plane.Config.Secrecy.{production_error_detail-of_production}
use llm_agent_control_plane.Pipeline.{World, Clock, Outcome}
use llm_agent_control_plane.Api.{
  HttpRequest, RunRequestBody, Response, detail_response, App, create_app, extract_api_key,
  provenance_key_of, respond, run_turn, post_run, dumped, unhandled_exception_handler,
}
use llm_agent_control_plane.Api.Authentication.{IsRefusedWith, post_run-cases}

module _ (platform : Platform) (host : Host) (elapsed_ms : ℕ) where
  -- What `create_app` has made sure of.
  created :
      (config : AppConfig) (app : App)
      → create_app platform host elapsed_ms config ≡ ok app
      → (validate host config ≡ ok tt) × (app.config ≡ config)
  unfolding create_app
  created config app h =
      let (u, valid, h₁) = >>=-eq-ok (validate host config) _ h in
      let (key, loaded, h₂) = >>=-eq-ok (provenance_key_of platform host elapsed_ms config) _ h₁ in
      (valid, cc)

  -- Answered with what the turn of the body returned, to a request that presents a key of the
  -- configuration.
  abbrev pub IsServed :
      AppConfig → App → Clock → HttpRequest → RunRequestBody → World → Response × World → Type 0
  IsServed config app clock http body w answer =
      (key : String) × (extract_api_key platform http.x_api_key http.authorization ≡ some key)
      × In key config.api_keys
      × (r : PipelineResult) × (w' : World) × (run_turn platform host clock app body
            http.x_correlation_id w
          ≡ (ok r, w'))
      × (answer ≡ (record { status_code = 200; content = dumped r }, w'))

  -- 500 "internal_error", for an exception of the turn, with the world that the turn left; or for
  -- one of the audit file, with the registry of used approvals as it was.
  abbrev pub IsFailed :
      App → Clock → HttpRequest → RunRequestBody → World → Response × World → Type 0
  IsFailed app clock http body w answer =
      (answer.0 ≡ detail_response 500 "internal_error")
      × (((e : Exc) × (run_turn platform host clock app body http.x_correlation_id w
              ≡ (raised e, answer.1)))
          ⊎ ((message : String) × (clock.audit_fault ≡ some message) × (answer.1.used ≡ w.used)))

  -- Answered with one of the three refusals; the registry of used approvals is as it was.
  abbrev pub IsRefused : World → Response × World → Type 0
  IsRefused w answer =
      ((answer.0 ≡ detail_response 400 "invalid_content_length")
        ⊎ (answer.0 ≡ detail_response 413 "request_entity_too_large")
        ⊎ (answer.0 ≡ detail_response 401 "unauthorized"))
      × (answer.1.used ≡ w.used)

  -- A refusal of an application in production, written or not.
  answer_of_refusal :
      (config : AppConfig) (app : App)
      → validate host config ≡ ok tt
      → app.config ≡ config
      → config.environment_mode ≡ production
      → (clock : Clock) (http : HttpRequest) (body : RunRequestBody) (w : World)
        (refusal : Response)
      → ((r : Response)
          → r ≡ refusal
          → (r ≡ detail_response 400 "invalid_content_length")
            ⊎ (r ≡ detail_response 413 "request_entity_too_large")
            ⊎ (r ≡ detail_response 401 "unauthorized"))
      → {answer : Response × World} → IsRefusedWith platform host clock app.config w refusal answer
      → IsFailed app clock http body w answer ⊎ IsRefused w answer
  unfolding detail_response
  answer_of_refusal config app valid same mode clock http body w refusal listed {answer} refused =
      let (choice, kept) = refused in
      elim choice [
        | inl (sound, said) ↦ inr (listed answer.0 said, kept)
        | inr (message, broken, said) ↦ inl (
          said
              ∙ rw
                  (
                    same,
                    production_error_detail-of_production host config valid mode (os_error message),
                  )
                  refl,
          inr (message, broken, kept),
        )
      ]

  -- In production, what an application that `create_app` has built answers to POST /run is the very
  -- result that the turn of the body returned, with status 200, and then the request presents one
  -- of the configuration's keys; or 500 "internal_error", whatever exception the turn raised, or
  -- where a refusal cannot be written to the audit file; or one of the three refusals. A refusal,
  -- written or not, leaves the registry of used approvals as it was.
  pub post_run-of_production :
      (config : AppConfig) (app : App)
      → create_app platform host elapsed_ms config ≡ ok app
      → config.environment_mode ≡ production
      → (clock : Clock) (http : HttpRequest) (body : RunRequestBody) (w : World)
      → IsServed config app clock http body w (post_run platform host clock app http body w)
        ⊎ IsFailed app clock http body w (post_run platform host clock app http body w)
        ⊎ IsRefused w (post_run platform host clock app http body w)
  unfolding respond unhandled_exception_handler detail_response
  post_run-of_production config app h mode clock http body w =
      let (valid, same) = created config app h in
      let ready = ((validate_iff host config).0 valid).ready mode in
      elim (post_run-cases platform host clock app http body w) [
        | inr (inl (garbled, refused)) ↦ inr (inr (rw refused (inl refl, refl)))
        | inr (inr (inl (large, refused))) ↦ inr (
            answer_of_refusal config app valid same mode clock http body w _ (λ r e. inr (inl e))
              refused)
        | inr (inr (inr (within, unknown, refused))) ↦ inr (
            answer_of_refusal config app valid same mode clock http body w _ (λ r e. inr (inr e))
              refused)
        | inl (within, known, answer) ↦
            let (key, presented, m) =
              known (ap (λ c. c.require_api_auth) same ∙ ready.authenticated) in
            turn_answered key presented (rw same at m) valid same _ refl answer
      ]
    where
      turn_answered :
          (key : String)
          → extract_api_key platform http.x_api_key http.authorization ≡ some key
          → In key config.api_keys
          → validate host config ≡ ok tt
          → app.config ≡ config
          → (o : Outcome PipelineResult)
          → run_turn platform host clock app body http.x_correlation_id w ≡ o
          → post_run platform host clock app http body w
            ≡ respond platform host clock app
                (run_turn platform host clock app body http.x_correlation_id w)
          → IsServed config app clock http body w (post_run platform host clock app http body w)
            ⊎ IsFailed app clock http body w (post_run platform host clock app http body w)
            ⊎ IsRefused w (post_run platform host clock app http body w)
      turn_answered key presented m valid same (ok r, w') ran answer =
          inl (key, presented, m, r, w', ran, answer ∙ rw ran refl)
      turn_answered key presented m valid same (raised e, w') ran answer = inr (
          inl (
            rw (answer, ran)
              (
                rw (same, production_error_detail-of_production host config valid mode e) refl,
                inl (e, refl),
              )))
