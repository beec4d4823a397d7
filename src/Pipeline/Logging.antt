-- ===== src/Pipeline/Logging.antt =====
-- src/agent_control_plane/pipeline.py and audit_logger.py: what follows the write of an event.
use llm_agent_control_plane.Base.{
  none, some, [], ◌∷◌, ◌++◌, ◌≡◌, refl, ◌⊎◌, inl, inr, String, Result, raised, os_error,
  Option-cases,
}
use llm_agent_control_plane.Audit.{AuditEvent, audit_line, write}
use llm_agent_control_plane.Pipeline.State.{World, Clock, log_then}

-- The world with one more line in the audit file.
abbrev pub with_line : Clock → AuditEvent → World → World
with_line clock e w = record w { lines = w.lines ++ audit_line clock.stamp e ∷ [] }

module _ {ℓ} {A : Type ℓ} (clock : Clock) (e : AuditEvent) (w : World) (result : Result A) where
  pub log_then-none :
      clock.audit_fault ≡ none → log_then clock e w result ≡ (result, with_line clock e w)
  unfolding log_then write
  log_then-none sound = rw sound refl

  pub log_then-some :
      (message : String)
      → clock.audit_fault ≡ some message
      → log_then clock e w result ≡ (raised (os_error message), w)
  unfolding log_then write
  log_then-some message broken = rw broken refl

  -- The event is written, or OSError goes through.
  pub log_then-cases :
      ((clock.audit_fault ≡ none) × (log_then clock e w result ≡ (result, with_line clock e w)))
      ⊎ ((message : String) × (clock.audit_fault ≡ some message)
          × (log_then clock e w result ≡ (raised (os_error message), w)))
  log_then-cases = elim (Option-cases clock.audit_fault) [
    | inl sound ↦ inl (sound, log_then-none sound)
    | inr (message, broken) ↦ inr (message, broken, log_then-some message broken)
  ]
