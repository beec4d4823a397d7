-- ===== src/Filter/Severity.antt =====
-- src/agent_control_plane/output_filter.py: `_highest_severity` against a description of it.
use llm_agent_control_plane.Base.{
  ◌≤◌, Bool-cases, String, some, List, [], ◌∷◌, ◌≡◌, refl, ◌⊎◌, inl, inr, In, arith, string_eq, ltb,
  option_eq, sym, ◌∙◌,
}
use llm_agent_control_plane.Filter.Types.{OutputFinding}
use llm_agent_control_plane.Filter.Measures.{highest_severity, highest_from, better, severity_score}

-- The order of the severities: critical is above high, high above medium, and medium above "low"
-- and every other word, which are at the bottom together.
abbrev pub IsAtMost : String → String → Type 0
IsAtMost a b =
    (a ≡ "critical" → b ≡ "critical")
    × (a ≡ "high" → (b ≡ "high") ⊎ (b ≡ "critical"))
    × (a ≡ "medium" → (b ≡ "medium") ⊎ (b ≡ "high") ⊎ (b ≡ "critical"))

score_le-IsAtMost : (a b : String) → severity_score a ≤ severity_score b → IsAtMost a b
unfolding severity_score string_eq
score_le-IsAtMost a b h = (
  λ e. elim (string_eq.dec b "critical") [
    | yes top ↦ top
    | no differ ↦ absurd (ground (arith, rw e at h))
  ],
  λ e. elim (string_eq.dec b "critical") [
    | yes top ↦ inr top
    | no differ ↦ elim (string_eq.dec b "high") [
      | yes high ↦ inl high
      | no lower ↦ absurd (ground (arith, rw e at h))
    ]
  ],
  λ e. elim (string_eq.dec b "critical") [
    | yes top ↦ inr (inr top)
    | no differ ↦ elim (string_eq.dec b "high") [
      | yes high ↦ inr (inl high)
      | no lower ↦ elim (string_eq.dec b "medium") [
        | yes medium ↦ inl medium
        | no bottom ↦ absurd (ground (arith, rw e at h))
      ]
    ]
  ],
)

-- The severity is one of the findings', and each of them has at most this severity.
pub record IsHighest (fs : List OutputFinding) (s : String) : Type 0 where
  pub finding : OutputFinding
  pub member : In finding fs
  pub attained : finding.severity ≡ s
  pub bound : (f : OutputFinding) → In f fs → IsAtMost f.severity s

-- The running best: it scores at least b, bounds the findings, and is b or one of theirs.
record IsBest (b : String) (fs : List OutputFinding) : Type 0 where
  s : String
  result : highest_from (some b) fs ≡ some s
  above : severity_score b ≤ severity_score s
  bound : (f : OutputFinding) → In f fs → severity_score f.severity ≤ severity_score s
  attained : (s ≡ b) ⊎ ((f : OutputFinding) × In f fs × (f.severity ≡ s))

IsBest-cons :
    (b c : String) (f : OutputFinding) (fs : List OutputFinding)
    → highest_from (some b) (f ∷ fs) ≡ highest_from (some c) fs
    → severity_score b ≤ severity_score c
    → severity_score f.severity ≤ severity_score c
    → (c ≡ b) ⊎ (c ≡ f.severity)
    → IsBest c fs
    → IsBest b (f ∷ fs)
IsBest-cons b c f fs e above_b above_f choice x = record {
  s = x.s;
  result = e ∙ x.result;
  above = omega (arith, above_b, x.above);
  bound = λ g h. bound_of g h;
  attained = attained_of choice x.attained;
}
  where
    bound_of : (g : OutputFinding) → In g (f ∷ fs) → severity_score g.severity ≤ severity_score x.s
    bound_of g (inl same) = rw same (omega (arith, above_f, x.above))
    bound_of g (inr h) = x.bound g h

    attained_of :
        {t : String}
        → (c ≡ b) ⊎ (c ≡ f.severity)
        → (t ≡ c) ⊎ ((g : OutputFinding) × In g fs × (g.severity ≡ t))
        → (t ≡ b) ⊎ ((g : OutputFinding) × In g (f ∷ fs) × (g.severity ≡ t))
    attained_of (inl e) (inl q) = inl (q ∙ e)
    attained_of (inr e) (inl q) = inr (f, inl refl, sym (q ∙ e))
    attained_of choice (inr (g, h, q)) = inr (g, inr h, q)

highest_from-IsBest : (b : String) (fs : List OutputFinding) → IsBest b fs
unfolding highest_from better
highest_from-IsBest b [] = record {
  s = b;
  result = refl;
  above = omega arith;
  bound = λ f h. elim h [ ];
  attained = inl refl;
}
highest_from-IsBest b (f ∷ fs) =
    elim (Bool-cases (ltb (severity_score b) (severity_score f.severity))) [
      | inl h ↦
          IsBest-cons b f.severity f fs (rw h refl) (ground arith) (ground arith) (inr refl)
            (highest_from-IsBest f.severity fs)
      | inr h ↦
          IsBest-cons b b f fs (rw h refl) (ground arith) (ground arith) (inl refl)
            (highest_from-IsBest b fs)
    ]

-- Of one or more findings the highest severity is reported: it is the severity of one of them, and
-- none of them is above it in the order in which critical is above high, high above medium, and
-- medium above every other word.
pub highest_severity-IsHighest :
    (f : OutputFinding) (fs : List OutputFinding)
    → (s : String) × (highest_severity (f ∷ fs) ≡ some s) × IsHighest (f ∷ fs) s
unfolding highest_severity highest_from better
highest_severity-IsHighest f fs =
    let x = highest_from-IsBest f.severity fs in (x.s, x.result, highest_of x)
  where
    highest_of : (x : IsBest f.severity fs) → IsHighest (f ∷ fs) x.s
    highest_of x = elim x.attained [
      | inl e ↦ record { finding = f; member = inl refl; attained = sym e; bound = bound_of x }
      | inr (g, h, q) ↦ record { finding = g; member = inr h; attained = q; bound = bound_of x }
    ]
      where
        bound_of :
            (x : IsBest f.severity fs) (g : OutputFinding) → In g (f ∷ fs) → IsAtMost g.severity x.s
        bound_of x g (inl same) = rw same (score_le-IsAtMost _ _ x.above)
        bound_of x g (inr h) = score_le-IsAtMost _ _ (x.bound g h)
