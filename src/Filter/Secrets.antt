-- ===== src/Filter/Secrets.antt =====
-- src/agent_control_plane/output_filter.py: what the filter does to a text that holds an `sk-` key.
use Prim.Native.String.{String}
use text.Mathlib.TextLemmas.{nil-append, cons-append}
use llm_agent_control_plane.Base.{
  ◌<>◌, ◌≡◌, refl, arith, Char, Option, some, none, true, false, Bool-cases, inl, inr, List, [],
  ◌∷◌, ◌++◌, truthy, string_eq, option_eq,
}
use llm_agent_control_plane.Platform.{Platform}
use llm_agent_control_plane.Regex.{
  hits, is_token_char, literal_hits, continue, same_char, search, found,
}
use llm_agent_control_plane.Regex.Laws.{
  Starts, NonEmpty, at_least-NonEmpty, search-append, NonEmpty-append_left, NonEmpty-map,
}
use llm_agent_control_plane.Filter.Types.{OutputFinding, OutputFilterContext, OutputFilterResult}
use llm_agent_control_plane.Filter.Patterns.{
  sk_pattern, secret_patterns, private_key_pattern, jwt_pattern,
}
use llm_agent_control_plane.Filter.Measures.{highest_severity, highest_from, better, severity_score}
use llm_agent_control_plane.Filter.Detectors.{any_found, pattern_findings, finding, finding_for}
use llm_agent_control_plane.Filter.Decision.{
  dedupe_findings, dedupe_from, is_seen, should_block, decide_output, filter_output, all_findings,
  text_findings, structured_findings, output_filter_result,
}

sk_pattern-NonEmpty :
    (secret : String) (before : Option Char)
    → Starts is_token_char 20 secret
    → NonEmpty (hits sk_pattern before ("sk-" <> secret))
unfolding sk_pattern hits literal_hits continue same_char
sk_pattern-NonEmpty secret before h =
    rw (cons-append, cons-append, cons-append, nil-append)
      (NonEmpty-append_left _ _
        (NonEmpty-map _ _ (at_least-NonEmpty is_token_char 20 (some "-") secret h)))

any_found-secret :
    (pre secret : String)
    → Starts is_token_char 20 secret
    → any_found secret_patterns (pre <> ("sk-" <> secret)) ≡ true
unfolding any_found secret_patterns
any_found-secret pre secret h =
    rw (search-append sk_pattern pre ("sk-" <> secret) (λ b. sk_pattern-NonEmpty secret b h)) refl

-- The first finding has the severity.
abbrev Leads : String → List OutputFinding → Type 0
Leads s [] = ⊥
Leads s (f ∷ fs) = f.severity ≡ s

Leads-append : (s : String) (xs ys : List OutputFinding) → Leads s xs → Leads s (xs ++ ys)
Leads-append s [] ys h = elim h [ ]
Leads-append s (x ∷ xs) ys h = h

pattern_findings-Leads :
    (platform : Platform) (text : String) (context : OutputFilterContext)
    → any_found secret_patterns text ≡ true
    → Leads "critical" (pattern_findings platform text context)
unfolding pattern_findings finding finding_for
pattern_findings-Leads platform text context h =
    elim (Bool-cases (found (search private_key_pattern text))) [
      | inl q ↦ rw q refl
      | inr q ↦ rw q (elim (Bool-cases (found (search jwt_pattern text))) [
        | inl p ↦ rw p refl
        | inr p ↦ rw (p, h) refl
      ])
    ]

highest_from-critical :
    (fs : List OutputFinding) → highest_from (some "critical") fs ≡ some "critical"
unfolding highest_from better severity_score
highest_from-critical [] = refl
highest_from-critical (f ∷ fs) = ground (arith, highest_from-critical fs)

highest_severity-critical :
    (f : OutputFinding) (fs : List OutputFinding)
    → f.severity ≡ "critical"
    → highest_severity (f ∷ fs) ≡ some "critical"
unfolding highest_severity highest_from better
highest_severity-critical f fs h = rw h (highest_from-critical fs)

should_block-critical :
    (f : OutputFinding) (fs : List OutputFinding) (context : OutputFilterContext)
    → f.severity ≡ "critical"
    → should_block (f ∷ fs) context ≡ true
unfolding should_block option_eq string_eq
should_block-critical f fs context h = rw (highest_severity-critical f fs h) refl

truthy-key : (pre secret : String) → truthy (pre <> ("sk-" <> secret)) ≡ true
truthy-key String.[] secret = rw (nil-append, cons-append) refl
truthy-key (String.◌∷◌ c pre) secret = rw cons-append refl

-- What the filter answers when it blocks for a critical finding.
abbrev pub BlockedAsCritical : OutputFilterResult → Type 0
BlockedAsCritical out =
    (out.allowed ≡ false) × (out.filtered_text ≡ "") × (out.highest_severity ≡ some "critical")

decide_output-critical :
    (text : String) (context : OutputFilterContext) (fs : List OutputFinding)
    → Leads "critical" fs
    → BlockedAsCritical (decide_output text context (dedupe_findings fs))
unfolding decide_output dedupe_findings dedupe_from is_seen output_filter_result
decide_output-critical text context [] h = elim h [ ]
decide_output-critical text context (f ∷ fs) h =
    rw (should_block-critical f (dedupe_from ((f.rule_id, f.reason) ∷ []) fs) context h)
      (refl, refl, highest_severity-critical f _ h)

-- A text in which "sk-" stands before at least 20 characters of `[a-zA-Z0-9_-]`, at any place and
-- whatever follows, is blocked in every context, when no structured response is given: the result
-- is not allowed, its text is empty, and its highest severity is "critical".
pub filter_output-of_secret :
    (platform : Platform) (context : OutputFilterContext) (pre secret : String)
    → Starts is_token_char 20 secret
    → BlockedAsCritical (filter_output platform (pre <> ("sk-" <> secret)) context none)
unfolding filter_output all_findings text_findings structured_findings
filter_output-of_secret platform context pre secret h =
    let text = pre <> ("sk-" <> secret) in
    decide_output-critical text context _ (
      rw (truthy-key pre secret) (
        Leads-append "critical" _ _ (
          Leads-append "critical" _ _
            (pattern_findings-Leads platform text context (any_found-secret pre secret h)))))
