-- ===== src/Audit/Correlation.antt =====
-- src/agent_control_plane/observability.py: how long a correlation identifier can be.
use llm_agent_control_plane.Base.{
  ℕ, zero, suc, ◌≤◌, String, true, Option, none, some, ◌≡◌, refl, ◌⊎◌, inl, inr, arith, Bool-cases,
  ltb, truthy, strip, length, take,
}
use llm_agent_control_plane.Models.{AgentRequest}
use llm_agent_control_plane.Audit.Observability.{
  max_correlation_id_len, bounded, normalize_correlation_id, resolve_correlation_id,
}

length-take_le : (n : ℕ) (s : String) → length (take n s) ≤ n
unfolding length take
length-take_le zero s = omega arith
length-take_le (suc n) String.[] = omega arith
length-take_le (suc n) (String.◌∷◌ c s) = omega (arith, length-take_le n s)

truthy-take : (n : ℕ) (s : String) → truthy s ≡ true → truthy (take (suc n) s) ≡ true
unfolding take
truthy-take n String.[] h = h
truthy-take n (String.◌∷◌ c s) h = refl

-- Not empty, and of at most 128 characters.
abbrev pub IsBounded : String → Type 0
IsBounded s = (truthy s ≡ true) × (length s ≤ max_correlation_id_len)

bounded-IsBounded : (s : String) → truthy s ≡ true → IsBounded (bounded s)
unfolding bounded
bounded-IsBounded s h = elim (Bool-cases (ltb max_correlation_id_len (length s))) [
  | inl long ↦ rw long (truthy-take 127 s h, length-take_le max_correlation_id_len s)
  | inr short ↦ rw short (h, ground arith)
]

normalize_correlation_id-IsBounded :
    (value : Option String) (fallback : String)
    → (normalize_correlation_id value fallback ≡ fallback)
      ⊎ IsBounded (normalize_correlation_id value fallback)
unfolding normalize_correlation_id
normalize_correlation_id-IsBounded none fallback = inl refl
normalize_correlation_id-IsBounded (some value) fallback =
    elim (Bool-cases (truthy (strip value))) [
      | inl given ↦ rw given (inr (bounded-IsBounded (strip value) given))
      | inr blank ↦ rw blank (inl refl)
    ]

-- The correlation identifier of a request is its request identifier, of whatever length, or it is
-- not empty and has at most 128 characters.
pub resolve_correlation_id-IsBounded :
    (request : AgentRequest)
    → (resolve_correlation_id request ≡ request.request_id)
      ⊎ IsBounded (resolve_correlation_id request)
unfolding resolve_correlation_id
resolve_correlation_id-IsBounded request =
    normalize_correlation_id-IsBounded request.correlation_id request.request_id
