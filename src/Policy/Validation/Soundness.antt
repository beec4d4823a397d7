-- ===== src/Policy/Validation/Soundness.antt =====
-- src/agent_control_plane/policy_integrity.py: what a sound policy file is, apart from the checks.
use text.Mathlib.TextEquality.{eq_iff}
use llm_agent_control_plane.Base.{
  ◌>>◌, ◌<>◌, ◌&&◌, ◌==◌, if◌then◌else◌, String, true, false, not, some, List, [], ◌∷◌, ◌≡◌, refl,
  ap, ◌∙◌, ◌↔◌, ◌≢◌, inl, inr, In, string_eq, arith, Result, ok,
}
use llm_agent_control_plane.Models.{risk_value, Fields, bool, str, arr, get, strs}
use llm_agent_control_plane.Platform.{Platform}
use llm_agent_control_plane.Policy.Types.{ToolPolicy}
use llm_agent_control_plane.Policy.Validation.{
  tool, refuse, bool_keys, require, truthy_value, is_admin_only, validate_tool_field_types,
  validate_named_tool, validate_tool_security_invariants, validate_send_email,
  validate_export_records,
}
use llm_agent_control_plane.Policy.Validation.Steps.{
  require_iff, >>_iff, value_at_iff, value_at-eq-ok, roles_iff, is_risk_level_iff, AllBools,
  require_bools_iff,
}

-- The mapping has the fields of the tool policy, each with a value of its type.
pub record Denotes (cfg : Fields) (tp : ToolPolicy) : Type 0 where
  pub enabled : get "enabled" cfg ≡ some (bool tp.enabled)
  pub external_effect : get "external_effect" cfg ≡ some (bool tp.external_effect)
  pub destructive : get "destructive" cfg ≡ some (bool tp.destructive)
  pub approval : get "requires_human_approval" cfg ≡ some (bool tp.requires_human_approval)
  pub roles : get "allowed_roles" cfg ≡ some (arr (strs tp.allowed_roles))
  pub risk : get "risk_level" cfg ≡ some (str (risk_value tp.risk_level))

-- The security invariants of the lab for one tool.
pub record IsSafeTool (name : String) (tp : ToolPolicy) : Type 0 where
  pub roles_given : tp.enabled ≡ true → tp.allowed_roles ≢ []
  pub shell_disabled : name ≡ "run_shell" → tp.enabled ≡ false
  pub email_approved : name ≡ "send_email" → tp.requires_human_approval ≡ true
  pub export_approved : name ≡ "export_records" → tp.requires_human_approval ≡ true
  pub export_by_admin : name ≡ "export_records" → tp.allowed_roles ≡ "admin" ∷ []

-- What is documented of iterating a set: every member comes, and no other.
abbrev pub IsSetOrder : Platform → Type 0
IsSetOrder platform = (ss : List String) (s : String) → In s (platform.set_order ss) ↔ In s ss

given_iff : (ss : List String) → (truthy_value (arr (strs ss)) ≡ true) ↔ (ss ≢ [])
unfolding truthy_value strs
given_iff [] = (λ h. cc, λ h. absurd (h refl))
given_iff (s ∷ ss) = (λ h e. cc, λ h. refl)

admin_iff : (ss : List String) → (is_admin_only (arr (strs ss)) ≡ true) ↔ (ss ≡ "admin" ∷ [])
unfolding is_admin_only strs
admin_iff [] = (λ h. cc, λ h. absurd (cc h))
admin_iff (s ∷ []) = ground arith
admin_iff (s ∷ t ∷ ss) = (λ h. absurd (cc h), λ h. absurd (cc h))

module _ (platform : Platform) (ordered : IsSetOrder platform) (name : String) where
  pub field_types_of_ok :
      (cfg : Fields)
      → validate_tool_field_types platform name cfg ≡ ok tt
      → (tp : ToolPolicy) × Denotes cfg tp
  unfolding validate_tool_field_types
  field_types_of_ok cfg h =
      let (bools, h₁) = (>>_iff _ _).0 h in
      let (roles, roles_at, h₂) = (value_at_iff "allowed_roles" cfg _).0 h₁ in
      let (is_list, h₃) = (>>_iff _ _).0 h₂ in
      let (are_texts, h₄) = (>>_iff _ _).0 h₃ in
      let (risk, risk_at, is_risk) = (value_at_iff "risk_level" cfg _).0 h₄ in
      let (ss, roles_eq) =
        (roles_iff roles).0 ((require_iff _ _).0 is_list, (require_iff _ _).0 are_texts) in
      let (r, risk_eq) = (is_risk_level_iff risk).0 ((require_iff _ _).0 is_risk) in
      let all : AllBools bool_keys cfg =
        λ k m. (require_bools_iff platform name _ cfg).0 bools k ((ordered bool_keys k).1 m) in
      (
        record {
          enabled = (all "enabled" (inl refl)).0;
          external_effect = (all "external_effect" (inr (inl refl))).0;
          destructive = (all "destructive" (inr (inr (inl refl)))).0;
          requires_human_approval = (all "requires_human_approval" (inr (inr (inr (inl refl))))).0;
          allowed_roles = ss;
          risk_level = r;
        },
        record {
          enabled = (all "enabled" (inl refl)).1;
          external_effect = (all "external_effect" (inr (inl refl))).1;
          destructive = (all "destructive" (inr (inr (inl refl)))).1;
          approval = (all "requires_human_approval" (inr (inr (inr (inl refl))))).1;
          roles = roles_at ∙ ap some roles_eq;
          risk = risk_at ∙ ap some risk_eq;
        },
      )

  all_bools : (cfg : Fields) (tp : ToolPolicy) → Denotes cfg tp → AllBools bool_keys cfg
  all_bools cfg tp d k (inl e) = (tp.enabled, rw e d.enabled)
  all_bools cfg tp d k (inr (inl e)) = (tp.external_effect, rw e d.external_effect)
  all_bools cfg tp d k (inr (inr (inl e))) = (tp.destructive, rw e d.destructive)
  all_bools cfg tp d k (inr (inr (inr (inl e)))) = (tp.requires_human_approval, rw e d.approval)
  all_bools cfg tp d k (inr (inr (inr (inr h)))) = elim h [ ]

  pub field_types-ok :
      (cfg : Fields) (tp : ToolPolicy)
      → Denotes cfg tp
      → validate_tool_field_types platform name cfg ≡ ok tt
  unfolding validate_tool_field_types
  field_types-ok cfg tp d =
      let (is_list, are_texts) =
        (roles_iff (arr (strs tp.allowed_roles))).1 (tp.allowed_roles, refl) in
      (>>_iff _ _).1 (
        (require_bools_iff platform name _ cfg).1
            (λ k m. all_bools cfg tp d k ((ordered bool_keys k).0 m)),
        (value_at_iff "allowed_roles" cfg _).1 (
          _,
          d.roles,
          (>>_iff _ _).1 (
            (require_iff _ _).1 is_list,
            (>>_iff _ _).1 (
              (require_iff _ _).1 are_texts,
              (value_at_iff "risk_level" cfg _).1
                  (_, d.risk, (require_iff _ _).1 ((is_risk_level_iff _).1 (tp.risk_level, refl))),
            ),
          ),
        ),
      )

  -- The security checks, on the values that the mapping has.
  unfoldable pub secured : ToolPolicy → Result (Unit {0})
  secured tp = do
    require (not (tp.enabled && not (truthy_value (arr (strs tp.allowed_roles))))) (
        ("tool " <> platform.repr name) <> ": enabled tools must declare at least one allowed role")
    if name == "run_shell" && tp.enabled
        then refuse "run_shell must remain disabled (enabled: false)"
        else if name == "send_email"
        then require tp.requires_human_approval "send_email must require human approval"
        else if name == "export_records"
        then require tp.requires_human_approval "export_records must require human approval"
          >> require (is_admin_only (arr (strs tp.allowed_roles)))
              "export_records allowed_roles must be ['admin'] only"
        else ok tt

  pub security-secured :
      (cfg : Fields) (tp : ToolPolicy)
      → Denotes cfg tp
      → validate_tool_security_invariants platform name cfg ≡ secured tp
  unfolding validate_tool_security_invariants validate_named_tool validate_send_email
      validate_export_records truthy_value tool secured
  security-secured cfg tp d =
      rw
        (
          value_at-eq-ok _ cfg d.enabled,
          value_at-eq-ok _ cfg d.roles,
          value_at-eq-ok _ cfg d.approval,
        )
        refl

  pub secured-IsSafeTool : (tp : ToolPolicy) → secured tp ≡ ok tt → IsSafeTool name tp
  unfolding secured
  secured-IsSafeTool tp h = record {
    roles_given = λ on. ground (arith, given_iff tp.allowed_roles);
    shell_disabled = λ e. ground (arith);
    email_approved = λ e. ground (arith);
    export_approved = λ e. ground (arith);
    export_by_admin = λ e. ground (
      arith,
      admin_iff tp.allowed_roles,
      eq_iff "send_email" "export_records",
      eq_iff "run_shell" "export_records",
    );
  }

  pub IsSafeTool-secured : (tp : ToolPolicy) → IsSafeTool name tp → secured tp ≡ ok tt
  unfolding secured
  IsSafeTool-secured tp s = ground (
    arith,
    given_iff tp.allowed_roles,
    admin_iff tp.allowed_roles,
    s.roles_given,
    s.shell_disabled,
    s.email_approved,
    s.export_approved,
    s.export_by_admin,
  )
