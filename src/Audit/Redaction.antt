-- ===== src/Audit/Redaction.antt =====
-- src/agent_control_plane/audit_logger.py: `_REDACT_PATTERNS` and `_redact`.
use llm_agent_control_plane.Base.{String, List, [], ◌∷◌}
use llm_agent_control_plane.Regex.{
  Regex, lit, lazy_star, seq, alt, at_least, optional, sub, is_token_char, any_char,
}
use llm_agent_control_plane.Filter.{jwt_pattern}

unfoldable pub short_sk_pattern : Regex
unfolding at_least is_token_char
short_sk_pattern = seq (lit "sk-") (at_least is_token_char 8)

unfoldable pub private_key_block_pattern : Regex
unfolding optional any_char
private_key_block_pattern = seq (lit "-----BEGIN ") (
    seq (optional (alt (lit "RSA ") (lit "EC ")))
      (seq (lit "PRIVATE KEY-----") (seq (lazy_star any_char) (lit "-----END"))))

-- `_REDACT_PATTERNS`
unfoldable pub redact_patterns : List Regex
unfolding short_sk_pattern jwt_pattern private_key_block_pattern
redact_patterns = short_sk_pattern ∷ jwt_pattern ∷ private_key_block_pattern ∷ []

redact_by : List Regex → String → String
redact_by [] value = value
redact_by (r ∷ rs) value = redact_by rs (sub r "[REDACTED]" value)

-- `_redact`
unfoldable pub redact : String → String
unfolding redact_by redact_patterns
redact value = redact_by redact_patterns value
