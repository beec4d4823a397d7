-- ===== src/Filter/Patterns.antt =====
-- src/agent_control_plane/output_filter.py: the compiled patterns.
use llm_agent_control_plane.Base.{Char, Bool, List, [], ◌∷◌}
use llm_agent_control_plane.Regex.{
  Regex, lit, lit_ci, exact, star, seq, alt, group, start, finish, boundary, at_least, optional,
  is_token_char, is_token_char_ci, is_base64_char, is_not_base64, is_not_base64_or_pad,
  is_not_space, is_dash, is_assign,
}
use llm_agent_control_plane.Base.{is_space, eqb, code}

is_pad : Char → Bool
is_pad c = eqb (code c) b'='

-- `={0,2}`
padding : Regex
unfolding optional is_pad
padding = seq (optional (exact is_pad 1)) (optional (exact is_pad 1))

-- `\s*[:=]\s*`
assignment : Regex
unfolding is_space is_assign
assignment = seq (star is_space) (seq (exact is_assign 1) (star is_space))

-- `_SECRET_PATTERNS`
unfoldable pub sk_pattern : Regex
unfolding at_least is_token_char
sk_pattern = seq (lit "sk-") (at_least is_token_char 20)

unfoldable pub password_pattern : Regex
unfolding assignment at_least is_not_space
password_pattern = seq (lit_ci "password") (seq assignment (at_least is_not_space 1))

unfoldable pub api_key_pattern : Regex
unfolding assignment at_least is_not_space optional is_dash
api_key_pattern = seq (lit_ci "api") (
    seq (optional (exact is_dash 1))
      (seq (lit_ci "key") (seq assignment (at_least is_not_space 1))))

unfoldable pub secret_patterns : List Regex
unfolding sk_pattern password_pattern api_key_pattern
secret_patterns = sk_pattern ∷ password_pattern ∷ api_key_pattern ∷ []

-- `-----BEGIN (?:RSA |EC )?PRIVATE KEY-----`
unfoldable pub private_key_pattern : Regex
unfolding optional
private_key_pattern =
    seq (lit "-----BEGIN ") (seq (optional (alt (lit "RSA ") (lit "EC "))) (lit "PRIVATE KEY-----"))

-- `eyJ[a-zA-Z0-9_-]+\.eyJ[a-zA-Z0-9_-]+\.[a-zA-Z0-9_-]+`
unfoldable pub jwt_pattern : Regex
unfolding at_least is_token_char
jwt_pattern = seq (lit "eyJ") (
    seq (at_least is_token_char 1) (
      seq (lit ".eyJ") (seq (at_least is_token_char 1) (seq (lit ".") (at_least is_token_char 1)))))

-- `_BASE64_BLOB_PATTERN`
unfoldable pub base64_blob_pattern : Regex
unfolding at_least padding is_base64_char is_not_base64 is_not_base64_or_pad
base64_blob_pattern = seq (alt start (exact is_not_base64 1)) (
    seq (group (seq (at_least is_base64_char 80) padding))
      (alt finish (exact is_not_base64_or_pad 1)))

module _ (is_word : Char → Bool) where
  -- `_HIGH_ENTROPY_TOKEN_PATTERN`
  unfoldable pub high_entropy_token_pattern : Regex
  unfolding at_least padding is_base64_char
  high_entropy_token_pattern =
      seq (boundary is_word) (seq (at_least is_base64_char 32) (seq padding (boundary is_word)))

  -- `_TENANT_MARKER_PATTERN`
  unfoldable pub tenant_marker_pattern : Regex
  unfolding at_least is_dash optional assignment is_token_char_ci
  tenant_marker_pattern = seq (boundary is_word) (
      seq (lit_ci "tenant") (
        seq (optional (exact is_dash 1))
          (seq (lit_ci "id") (seq assignment (group (at_least is_token_char_ci 1))))))

  -- `_SENSITIVE_CLASSIFICATION_PATTERN`
  unfoldable pub sensitive_classification_pattern : Regex
  unfolding assignment
  sensitive_classification_pattern = seq (boundary is_word) (
      seq (lit_ci "classification") (
        seq assignment (
          seq (group (alt (lit_ci "sensitive") (alt (lit_ci "restricted") (lit_ci "confidential"))))
            (boundary is_word))))
