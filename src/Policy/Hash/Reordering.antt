-- ===== src/Policy/Hash/Reordering.antt =====
-- src/agent_control_plane/policy_integrity.py: the canonical form and the order in which a policy
-- file lists its tools and their settings.
use mathlib.Core.List.{Permᴰ}
use llm_agent_control_plane.Base.{
  String, Option, some, List, [], ◌∷◌, ◌≡◌, refl, ◌⊎◌, inl, inr, Option-cases, Result-cases, ok,
  ◌>>=◌,
}
use llm_agent_control_plane.Models.{Value, Fields, obj, field, get}
use llm_agent_control_plane.Platform.{Platform}
use llm_agent_control_plane.Json.{sorted}
use llm_agent_control_plane.Json.Sorting.{sorted_perm}
use llm_agent_control_plane.Policy.Validation.{keys_of, value_at}
use llm_agent_control_plane.Policy.Validation.Steps.{value_at-eq-ok}
use llm_agent_control_plane.Policy.Hash.{
  canonical_settings, canonical_tool, canonical_tools, canonical_mapping, canonical_policy_payload,
  canonical_policy_json, compute_policy_sha256,
}

-- The same keys in another order, with the same values.
abbrev pub SameSettings : Fields → Fields → Type 0
SameSettings a b = Permᴰ (keys_of a) (keys_of b) × ((k : String) → get k a ≡ get k b)

-- Equal, or two mappings with the same settings.
abbrev pub SameEntry : Option Value → Option Value → Type 0
SameEntry v w =
    (v ≡ w)
    ⊎ ((a : Fields) × (b : Fields) × (v ≡ some (obj a)) × (w ≡ some (obj b)) × SameSettings a b)

-- The same names in another order, and under each name the same entry.
abbrev pub SameTools : Fields → Fields → Type 0
SameTools a b = Permᴰ (keys_of a) (keys_of b) × ((k : String) → SameEntry (get k a) (get k b))

value_at_same : (k : String) (a b : Fields) → get k a ≡ get k b → value_at k a ≡ value_at k b
unfolding value_at
value_at_same k a b same = elim (Option-cases (get k b)) [
  | inl missing ↦ rw (same, missing, value_at) refl
  | inr (v, found) ↦ rw (same, found, value_at) refl
]

module _ (platform : Platform) where
  settings_pointwise :
      (keys : List String) (a b : Fields)
      → ((k : String) → get k a ≡ get k b)
      → canonical_settings platform keys a ≡ canonical_settings platform keys b
  unfolding canonical_settings
  settings_pointwise [] a b same = refl
  settings_pointwise (key ∷ keys) a b same =
      simp (value_at_same key a b (same key), settings_pointwise keys a b same)

  tool_same :
      (name : String) (a b : Fields)
      → SameSettings a b
      → canonical_tool platform name (obj a) ≡ canonical_tool platform name (obj b)
  unfolding canonical_tool
  tool_same name a b (perm, same) = rw (sorted_perm perm) (settings_pointwise _ a b same)

  -- What the loop does with the entry of one name.
  entry_same :
      (name : String) (a b : Fields)
      → SameEntry (get name a) (get name b)
      → (value_at name a >>= canonical_tool platform name)
        ≡ (value_at name b >>= canonical_tool platform name)
  entry_same name a b (inl same) = rw (value_at_same name a b same) refl
  entry_same name a b (inr (c, d, in_a, in_b, same)) =
      rw (value_at-eq-ok name a in_a, value_at-eq-ok name b in_b) (tool_same name c d same)

  canonical_tools_eq :
      (name : String) (names : List String) (tools : Fields)
      → canonical_tools platform (name ∷ names) tools ≡ (
          (value_at name tools >>= canonical_tool platform name) >>= λ canonical.
          canonical_tools platform names tools >>= λ rest. ok (field name (obj canonical) rest))
  unfolding canonical_tools
  canonical_tools_eq name names tools = elim (Result-cases (value_at name tools)) [
    | inl (v, e) ↦ rw e refl
    | inr (x, e) ↦ rw e refl
  ]

  tools_pointwise :
      (names : List String) (a b : Fields)
      → ((k : String) → SameEntry (get k a) (get k b))
      → canonical_tools platform names a ≡ canonical_tools platform names b
  unfolding canonical_tools
  tools_pointwise [] a b same = refl
  tools_pointwise (name ∷ names) a b same =
      rw
        (
          canonical_tools_eq name names a,
          canonical_tools_eq name names b,
          entry_same name a b (same name),
          tools_pointwise names a b same,
        )
        refl

  -- Two policy files with the same default_decision and the same tenant_isolation, whose tools
  -- mappings name the same tools in any order, each with the same settings in any order, have the
  -- same hash, or fail in the same way.
  pub compute_policy_sha256_perm :
      (raw_a raw_b a b : Fields)
      → get "default_decision" raw_a ≡ get "default_decision" raw_b
      → get "tenant_isolation" raw_a ≡ get "tenant_isolation" raw_b
      → get "tools" raw_a ≡ some (obj a)
      → get "tools" raw_b ≡ some (obj b)
      → SameTools a b
      → compute_policy_sha256 platform raw_a ≡ compute_policy_sha256 platform raw_b
  unfolding compute_policy_sha256 canonical_policy_json canonical_policy_payload canonical_mapping
  compute_policy_sha256_perm raw_a raw_b a b decision isolation tools_a tools_b (perm, same) =
      rw
        (
          decision,
          isolation,
          tools_a,
          tools_b,
          sorted_perm perm,
          tools_pointwise (sorted (keys_of b)) a b same,
        )
        refl
