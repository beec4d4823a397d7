-- ===== src/Policy/Validation/Document.antt =====
-- src/agent_control_plane/policy_integrity.py: `validate_policy_invariants` and sound policy files.
use llm_agent_control_plane.Base.{
  String, true, Option, some, ◌≡◌, refl, sym, ◌∙◌, ◌↔◌, inl, inr, In, string_eq, arith, ok,
}
use llm_agent_control_plane.Models.{Value, Fields, str, obj, end, field, get}
use llm_agent_control_plane.Platform.{Platform}
use llm_agent_control_plane.Policy.Types.{ToolPolicy}
use llm_agent_control_plane.Policy.Validation.{
  required_tool_keys, required_demo_tools, allowed_top_level_keys, keys_of, truthy_value,
  validate_tool, validate_entry, validate_tools, validate_mapping, has_text,
  validate_policy_invariants,
}
use llm_agent_control_plane.Policy.Validation.Steps.{
  require_iff, >>_iff, difference-nil_iff, require_none_iff,
}
use llm_agent_control_plane.Policy.Validation.Soundness.{
  Denotes, IsSafeTool, IsSetOrder, field_types_of_ok, field_types-ok, security-secured,
  secured-IsSafeTool, IsSafeTool-secured,
}

-- The mapping is that of a tool policy that keeps the security invariants, with no other key.
pub record IsSoundTool (name : String) (cfg : Fields) : Type 0 where
  pub tool_policy : ToolPolicy
  pub denotes : Denotes cfg tool_policy
  pub safe : IsSafeTool name tool_policy
  pub known : (k : String) → In k (keys_of cfg) → In k required_tool_keys

abbrev pub AllSound : Fields → Type 0
AllSound end = Unit
AllSound (field name v rest) =
    ((cfg : Fields) × (v ≡ obj cfg) × IsSoundTool name cfg) × AllSound rest

pub record IsSoundPolicy (raw : Fields) : Type 0 where
  pub known : (k : String) → In k (keys_of raw) → In k allowed_top_level_keys
  pub denies : get "default_decision" raw ≡ some (str "deny")
  pub isolates : get "tenant_isolation" raw ≡ some (str "strict")
  pub tools : Fields
  pub listed : get "tools" raw ≡ some (obj tools)
  pub demo : (k : String) → In k required_demo_tools → In k (keys_of tools)
  pub sound : AllSound tools

In-keys_of : (key : String) (fs : Fields) {v : Value} → get key fs ≡ some v → In key (keys_of fs)
unfolding get keys_of
In-keys_of key end found = absurd (ground arith)
In-keys_of key (field k v fs) {v = w} found = ground (arith, In-keys_of key fs {v = w})

required_keys-In :
    (cfg : Fields) (tp : ToolPolicy)
    → Denotes cfg tp
    → (k : String) → In k required_tool_keys
    → In k (keys_of cfg)
required_keys-In cfg tp d k (inl e) = rw e (In-keys_of _ cfg d.enabled)
required_keys-In cfg tp d k (inr (inl e)) = rw e (In-keys_of _ cfg d.risk)
required_keys-In cfg tp d k (inr (inr (inl e))) = rw e (In-keys_of _ cfg d.external_effect)
required_keys-In cfg tp d k (inr (inr (inr (inl e)))) = rw e (In-keys_of _ cfg d.destructive)
required_keys-In cfg tp d k (inr (inr (inr (inr (inl e))))) = rw e (In-keys_of _ cfg d.approval)
required_keys-In cfg tp d k (inr (inr (inr (inr (inr (inl e)))))) = rw e (In-keys_of _ cfg d.roles)
required_keys-In cfg tp d k (inr (inr (inr (inr (inr (inr h)))))) = elim h [ ]

has_text_iff :
    (key text : String) (raw : Fields)
    → (has_text key text raw ≡ true) ↔ (get key raw ≡ some (str text))
unfolding has_text
has_text_iff key text raw = ground arith

module _ (platform : Platform) (ordered : IsSetOrder platform) where
  validate_tool_iff :
      (name : String) (cfg : Fields)
      → (validate_tool platform name cfg ≡ ok tt) ↔ IsSoundTool name cfg
  unfolding validate_tool
  validate_tool_iff name cfg = (
    λ h.
        let (unknown, h₁) = (>>_iff _ _).0 h in
        let (missing, h₂) = (>>_iff _ _).0 h₁ in
        let (types, secure) = (>>_iff _ _).0 h₂ in
        let (tp, d) = field_types_of_ok platform ordered name cfg types in
        record {
          tool_policy = tp;
          denotes = d;
          safe =
              secured-IsSafeTool platform ordered name tp
                (sym (security-secured platform ordered name cfg tp d) ∙ secure);
          known = (difference-nil_iff _ _).0 ((require_none_iff _ _).0 unknown);
        },
    λ s. (>>_iff _ _).1 (
      (require_none_iff _ _).1 ((difference-nil_iff _ _).1 s.known),
      (>>_iff _ _).1 (
        (require_none_iff _ _).1
            ((difference-nil_iff _ _).1 (required_keys-In cfg s.tool_policy s.denotes)),
        (>>_iff _ _).1 (
          field_types-ok platform ordered name cfg s.tool_policy s.denotes,
          security-secured platform ordered name cfg s.tool_policy s.denotes
              ∙ IsSafeTool-secured platform ordered name s.tool_policy s.safe,
        ),
      ),
    ),
  )

  validate_entry_iff :
      (name : String) (v : Value)
      → (validate_entry platform name v ≡ ok tt)
        ↔ ((cfg : Fields) × (v ≡ obj cfg) × IsSoundTool name cfg)
  unfolding validate_entry
  validate_entry_iff name (obj cfg) = (
    λ h. (cfg, refl, (validate_tool_iff name cfg).0 h),
    λ (cfg', e, s). let same : cfg ≡ cfg' = cc in (validate_tool_iff name cfg).1 (rw same s),
  )
  validate_entry_iff name v = (λ h. absurd (cc h), λ (cfg, e, s). absurd (cc e))

  validate_tools_iff : (tools : Fields) → (validate_tools platform tools ≡ ok tt) ↔ AllSound tools
  unfolding validate_tools
  validate_tools_iff end = (λ h. tt, λ h. refl)
  validate_tools_iff (field name v rest) = (
    λ h.
        let (here, later) = (>>_iff _ _).0 h in
        ((validate_entry_iff name v).0 here, (validate_tools_iff rest).0 later),
    λ (here, later).
        (>>_iff _ _).1 ((validate_entry_iff name v).1 here, (validate_tools_iff rest).1 later),
  )

  mapping_of_ok :
      (v : Option Value)
      → validate_mapping platform v ≡ ok tt
      → (tools : Fields) × (v ≡ some (obj tools))
        × ((k : String) → In k required_demo_tools → In k (keys_of tools))
        × AllSound tools
  unfolding validate_mapping
  mapping_of_ok (some (obj tools)) h =
      let (given, h₁) = (>>_iff _ _).0 h in
      let (demo, sound) = (>>_iff _ _).0 h₁ in
      (
        tools,
        refl,
        (difference-nil_iff _ _).0 ((require_none_iff _ _).0 demo),
        (validate_tools_iff tools).0 sound,
      )
  mapping_of_ok v h = absurd (cc h)

  mapping-ok :
      (tools : Fields)
      → ((k : String) → In k required_demo_tools → In k (keys_of tools))
      → AllSound tools
      → validate_mapping platform (some (obj tools)) ≡ ok tt
  unfolding validate_mapping truthy_value keys_of
  mapping-ok end demo sound = elim (demo "run_shell" (inr (inr (inr (inr (inl refl)))))) [ ]
  mapping-ok (field name v rest) demo sound = (>>_iff _ _).1 (
    refl,
    (>>_iff _ _).1 (
      (require_none_iff _ _).1 ((difference-nil_iff _ _).1 demo),
      (validate_tools_iff (field name v rest)).1 sound,
    ),
  )

  -- If iterating a set of keys yields exactly its members, the policy check goes through exactly
  -- if the file is sound: it has no other top-level key, denies by default and isolates tenants
  -- strictly; it lists the tools of the demo; and each entry is the mapping of a tool policy, with
  -- no other key, that keeps the security invariants of its name.
  pub validate_policy_invariants_iff :
      (raw : Fields) → (validate_policy_invariants platform raw ≡ ok tt) ↔ IsSoundPolicy raw
  unfolding validate_policy_invariants
  validate_policy_invariants_iff raw = (
    λ h.
        let (unknown, h₁) = (>>_iff _ _).0 h in
        let (denies, h₂) = (>>_iff _ _).0 h₁ in
        let (isolates, mapping) = (>>_iff _ _).0 h₂ in
        let (tools, listed, demo, sound) = mapping_of_ok (get "tools" raw) mapping in
        record {
          known = (difference-nil_iff _ _).0 ((require_none_iff _ _).0 unknown);
          denies = (has_text_iff _ _ raw).0 ((require_iff _ _).0 denies);
          isolates = (has_text_iff _ _ raw).0 ((require_iff _ _).0 isolates);
          tools = tools;
          listed = listed;
          demo = demo;
          sound = sound;
        },
    λ s. (>>_iff _ _).1 (
      (require_none_iff _ _).1 ((difference-nil_iff _ _).1 s.known),
      (>>_iff _ _).1 (
        (require_iff _ _).1 ((has_text_iff _ _ raw).1 s.denies),
        (>>_iff _ _).1 (
          (require_iff _ _).1 ((has_text_iff _ _ raw).1 s.isolates),
          rw s.listed (mapping-ok s.tools s.demo s.sound),
        ),
      ),
    ),
  )
