-- ===== src/Tests/Files.antt =====
-- policies/default.yaml as the mapping that YAML makes of it, and a host that has it on file with a hash.
use llm_agent_control_plane.Base.{
  pos, String, ◌<>◌, Bool, true, false, Option, none, some, List, [], ◌∷◌, ◌≡◌, refl, ◌==◌,
  string_eq, if◌then◌else◌, ok,
}
use llm_agent_control_plane.Models.{
  null, Items, Fields, bool, str, arr, obj, nil, cons, end, field, get, strs, RiskLevel, low,
  medium, high, critical, risk_value,
}
use llm_agent_control_plane.Platform.{Platform}
use llm_agent_control_plane.Host.{Host}
use llm_agent_control_plane.Policy.{ToolPolicy}
use llm_agent_control_plane.Policy.Validation.Soundness.{IsSetOrder}
use llm_agent_control_plane.Policy.Loading.Soundness.{Validates}
use llm_agent_control_plane.Tests.Fixtures.{lab}

abbrev pub zeros : String
zeros = "0000000000000000000000000000000000000000000000000000000000000000"

-- Digests of the right form.
abbrev pub digesting : Platform
digesting = record lab { sha256_hex = λ s. zeros }

pub digesting-IsSetOrder : IsSetOrder digesting
digesting-IsSetOrder ss s = (λ m. m, λ m. m)

settings : (enabled : Bool) → String → (external destructive approval : Bool) → List String → Fields
settings enabled risk external destructive approval roles = field "enabled" (bool enabled) (
    field "risk_level" (str risk) (
      field "external_effect" (bool external) (
        field "destructive" (bool destructive) (
          field "requires_human_approval" (bool approval)
            (field "allowed_roles" (arr (strs roles)) end)))))

abbrev pub everyone : List String
everyone = "user" ∷ "admin" ∷ []

unfoldable pub tools_on_file : Fields
unfolding settings
tools_on_file = field "read_records" (obj (settings true "low" false false false everyone)) (
    field "send_email" (obj (settings true "high" true false true everyone)) (
      field "export_records" (obj (settings true "high" true false true ("admin" ∷ []))) (
        field "delete_records" (obj (settings true "critical" false true true ("admin" ∷ [])))
          (field "run_shell" (obj (settings false "critical" true true true [])) end))))

unfoldable pub policy_on_file : Fields
policy_on_file =
    field "default_decision" (str "deny")
      (field "tools" (obj tools_on_file) (field "tenant_isolation" (str "strict") end))

-- A class that accepts the mappings with the six fields of the right type, and no other.
bool_at : String → Fields → Option Bool
bool_at key cfg = elim (get key cfg) [ some (bool b) ↦ some b | _ ↦ none ]

texts : Items → Option (List String)
texts nil = some []
texts (cons (str s) vs) = elim (texts vs) [ some ss ↦ some (s ∷ ss) | none ↦ none ]
texts (cons v vs) = none

roles_at : Fields → Option (List String)
roles_at cfg = elim (get "allowed_roles" cfg) [ some (arr vs) ↦ texts vs | _ ↦ none ]

risk_of : String → Option RiskLevel
risk_of s =
    if s == "low"
    then some low
    else if s == "medium"
    then some medium
    else if s == "high"
    then some high
    else if s == "critical"
    then some critical
    else none

risk_at : Fields → Option RiskLevel
risk_at cfg = elim (get "risk_level" cfg) [ some (str s) ↦ risk_of s | _ ↦ none ]

assemble :
    Option Bool
    → Option RiskLevel
    → Option Bool
    → Option Bool
    → Option Bool
    → Option (List String)
    → Option ToolPolicy
assemble (some e) (some r) (some x) (some d) (some a) (some rs) = some (record {
  enabled = e;
  risk_level = r;
  external_effect = x;
  destructive = d;
  requires_human_approval = a;
  allowed_roles = rs;
})
assemble e r x d a rs = none

unfoldable pub accept : Fields → Option ToolPolicy
unfolding bool_at risk_at roles_at assemble texts risk_of
accept cfg =
    assemble (bool_at "enabled" cfg) (risk_at cfg) (bool_at "external_effect" cfg)
      (bool_at "destructive" cfg) (bool_at "requires_human_approval" cfg) (roles_at cfg)

texts-strs : (ss : List String) → texts (strs ss) ≡ some ss
unfolding texts strs
texts-strs [] = refl
texts-strs (s ∷ ss) = rw (texts-strs ss) refl

risk_of-value : (r : RiskLevel) → risk_of (risk_value r) ≡ some r
unfolding risk_of risk_value string_eq
risk_of-value low = refl
risk_of-value medium = refl
risk_of-value high = refl
risk_of-value critical = refl

bool_at_eq :
    (key : String) (cfg : Fields) (b : Bool)
    → get key cfg ≡ some (bool b)
    → bool_at key cfg ≡ some b
unfolding bool_at
bool_at_eq key cfg b e = rw (e, bool_at) refl

roles_at_eq :
    (cfg : Fields) (ss : List String)
    → get "allowed_roles" cfg ≡ some (arr (strs ss))
    → roles_at cfg ≡ some ss
unfolding roles_at
roles_at_eq cfg ss e = rw (e, roles_at) (texts-strs ss)

risk_at_eq :
    (cfg : Fields) (r : RiskLevel)
    → get "risk_level" cfg ≡ some (str (risk_value r))
    → risk_at cfg ≡ some r
unfolding risk_at
risk_at_eq cfg r e = rw (e, risk_at) (risk_of-value r)

-- Every request of the host reads the same file, and the hash is at the path "golden".
abbrev pub files : Host
files = record {
  environ = λ name. none;
  is_file = λ path. true;
  write_text = λ path text. ok tt;
  read_text = λ path. ok (if path == "golden" then zeros <> "\n" else "yaml");
  read_bytes = λ path. ok (1 ∷ []);
  expanduser = λ path. path;
  name_of = λ path. path;
  safe_load = λ s. ok (obj policy_on_file);
  loads = λ s. ok null;
  model_validate = accept;
  int_of = λ s. some (pos 4096);
  str_of_exc = λ e. "";
  type_name = λ e. "Exception";
}

pub files-Validates : Validates files
unfolding accept assemble
files-Validates cfg tp d =
    rw
      (
        bool_at_eq "enabled" cfg _ d.enabled,
        bool_at_eq "external_effect" cfg _ d.external_effect,
        bool_at_eq "destructive" cfg _ d.destructive,
        bool_at_eq "requires_human_approval" cfg _ d.approval,
        roles_at_eq cfg _ d.roles,
        risk_at_eq cfg _ d.risk,
      )
      refl
