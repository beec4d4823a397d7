-- ===== src/Filter/Measures.antt =====
-- src/agent_control_plane/output_filter.py: severities, sensitivities, samples, the entropy of a
-- token and the printable share of a decoded blob. Entropy and share are compared with 4.2 and
-- 0.85 by whole numbers: with n characters and counts c, the entropy
-- `log2 n - (sum of c * log2 c) / n` is below 21/5 exactly if `n^(5n) < 2^(21n) * product of c^(5c)`.
use Prim.Native.String.{String}
use llm_agent_control_plane.Base.{
  ℕ, ◌+◌, ◌*◌, ◌/◌, ◌^◌, suc, Char, code, ◌<>◌, Bool, true, false, ◌&&◌, ◌||◌, not, Option, none,
  some, List, [], ◌∷◌, ◌==◌, string_eq, eqb, ltb, leb, if◌then◌else◌, strip, length, take,
}
use llm_agent_control_plane.Platform.{Platform, Bytes}
use llm_agent_control_plane.Regex.{is_digit}
use llm_agent_control_plane.Filter.Types.{
  OutputFinding, SourceSensitivity, public, internal, sensitive, restricted,
}

-- `order.get(severity, 0)` of `_highest_severity`
unfoldable pub severity_score : String → ℕ
severity_score s =
    if s == "critical" then 3 else if s == "high" then 2 else if s == "medium" then 1 else 0

-- `best_score` starts at -1, so that the first finding is always taken.
unfoldable pub better : Option String → String → Option String
unfolding severity_score
better none severity = some severity
better (some best) severity =
    if ltb (severity_score best) (severity_score severity) then some severity else some best

unfoldable pub highest_from : Option String → List OutputFinding → Option String
unfolding better
highest_from best [] = best
highest_from best (f ∷ fs) = highest_from (better best f.severity) fs

-- `_highest_severity`
unfoldable pub highest_severity : List OutputFinding → Option String
unfolding highest_from
highest_severity findings = highest_from none findings

unfoldable pub sensitivity_rank : SourceSensitivity → ℕ
sensitivity_rank public = 0
sensitivity_rank internal = 1
sensitivity_rank sensitive = 2
sensitivity_rank restricted = 3

-- `_max_sensitivity`
unfoldable pub max_sensitivity : SourceSensitivity → SourceSensitivity → SourceSensitivity
unfolding sensitivity_rank
max_sensitivity current candidate =
    if ltb (sensitivity_rank current) (sensitivity_rank candidate) then candidate else current

max_ℕ : ℕ → ℕ → ℕ
max_ℕ a b = if ltb a b then b else a

-- `_redact_sample`
unfoldable pub redact_sample : String → ℕ → String
unfolding max_ℕ
redact_sample value max_len =
    let trimmed = strip value in
    if leb (length trimmed) max_len
    then take (max_ℕ 4 (length trimmed / 2)) trimmed <> "...[REDACTED]"
    else take max_len trimmed <> "...[REDACTED]"

-- The counts of `_shannon_entropy`, by character.
count_char : Char → List (Char × ℕ) → List (Char × ℕ)
count_char c [] = (c, 1) ∷ []
count_char c ((d, n) ∷ counts) =
    if eqb (code c) (code d) then (d, suc n) ∷ counts else (d, n) ∷ count_char c counts

char_counts : List (Char × ℕ) → String → List (Char × ℕ)
unfolding count_char
char_counts counts String.[] = counts
char_counts counts (String.◌∷◌ c s) = char_counts (count_char c counts) s

product_of_powers : List (Char × ℕ) → ℕ
product_of_powers [] = 1
product_of_powers ((c, n) ∷ counts) = n ^ (5 * n) * product_of_powers counts

-- `_shannon_entropy(token) < _ENTROPY_THRESHOLD_BITS`; the entropy of the empty text is 0.
unfoldable pub entropy_is_low : String → Bool
unfolding char_counts product_of_powers
entropy_is_low token =
    let n = length token in
    ltb (n ^ (5 * n)) (2 ^ (21 * n) * product_of_powers (char_counts [] token)) || eqb n 0

-- `token.isdigit()` of an ASCII text
all_digits : String → Bool
unfolding is_digit
all_digits String.[] = true
all_digits (String.◌∷◌ c s) = is_digit c && all_digits s

unfoldable pub is_digits : String → Bool
unfolding all_digits
is_digits s = not (eqb (length s) 0) && all_digits s

count_printable : Bytes → ℕ
count_printable [] = 0
count_printable (b ∷ bs) = (if leb 32 b && ltb b 127 then 1 else 0) + count_printable bs

byte_count : Bytes → ℕ
byte_count [] = 0
byte_count (b ∷ bs) = suc (byte_count bs)

mostly_printable : Option Bytes → Bool
unfolding count_printable byte_count
mostly_printable none = false
mostly_printable (some decoded) =
    if ltb (byte_count decoded) 48
    then false
    else ltb (85 * byte_count decoded) (100 * count_printable decoded)

-- `_looks_like_encoded_secret`
unfoldable pub looks_like_encoded_secret : Platform → String → Bool
unfolding mostly_printable
looks_like_encoded_secret platform blob = mostly_printable (platform.b64decode blob)
