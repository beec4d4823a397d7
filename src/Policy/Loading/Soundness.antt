-- ===== src/Policy/Loading/Soundness.antt =====
-- src/agent_control_plane/policy_engine.py and policy_integrity.py: what `load_policy` makes of a
-- sound policy file.
use llm_agent_control_plane.Base.{
  String, some, List, [], ◌∷◌, ◌≡◌, refl, sym, ◌∙◌, inl, inr, In, arith, ok, string_eq,
}
use llm_agent_control_plane.Models.{Fields, str, obj, end, field, get}
use llm_agent_control_plane.Platform.{Platform, text_of}
use llm_agent_control_plane.Host.{Host}
use llm_agent_control_plane.Policy.Types.{ToolPolicy, PolicyDocument, find_tool}
use llm_agent_control_plane.Policy.Validation.{required_demo_tools, keys_of, load_policy_yaml}
use llm_agent_control_plane.Policy.Validation.Soundness.{Denotes, IsSafeTool}
use llm_agent_control_plane.Policy.Validation.Document.{AllSound, IsSoundPolicy}
use llm_agent_control_plane.Policy.Loading.{
  text_or, tool_policy_of, load_tools, tools_mapping, document_of, load_policy,
}

-- What pydantic documents: a mapping with a value of the right type for every field is accepted,
-- and the model has these values.
abbrev pub Validates : Host → Type 0
Validates host =
    (cfg : Fields) (tp : ToolPolicy) → Denotes cfg tp → host.model_validate cfg ≡ some tp

-- Every listed tool keeps the security invariants, and every named tool is listed.
abbrev pub AllSafe : List (String × ToolPolicy) → Type 0
AllSafe tools =
    (name : String) (tp : ToolPolicy) → find_tool name tools ≡ some tp → IsSafeTool name tp

abbrev pub Lists : List String → List (String × ToolPolicy) → Type 0
Lists names tools =
    (name : String) → In name names → (tp : ToolPolicy) × (find_tool name tools ≡ some tp)

pub record IsSafePolicy (policy : PolicyDocument) : Type 0 where
  pub denies : policy.default_decision ≡ "deny"
  pub isolates : policy.tenant_isolation ≡ "strict"
  pub safe : AllSafe policy.tools
  pub demo : Lists required_demo_tools policy.tools

AllSafe-cons :
    (name : String) (tp : ToolPolicy) (tools : List (String × ToolPolicy))
    → IsSafeTool name tp
    → AllSafe tools
    → AllSafe ((name, tp) ∷ tools)
unfolding find_tool
AllSafe-cons name tp tools here later other found e = elim (string_eq.dec name other) [
  | yes same ↦ let is_tp : tp ≡ found = ground arith in rw (sym same, sym is_tp) here
  | no differ ↦ later other found (ground arith)
]

Lists-cons :
    (name : String) (tp : ToolPolicy) (names : List String) (tools : List (String × ToolPolicy))
    → Lists names tools
    → Lists (name ∷ names) ((name, tp) ∷ tools)
unfolding find_tool
Lists-cons name tp names tools later other member = elim (string_eq.dec name other) [
  | yes same ↦ (tp, ground arith)
  | no differ ↦ elim member [
    | inl e ↦ absurd (differ (sym e))
    | inr m ↦ let (found, listed) = later other m in (found, ground arith)
  ]
]

load_tools-safe :
    (host : Host)
    → Validates host
    → (fs : Fields) → AllSound fs
    → (tools : List (String × ToolPolicy)) × (load_tools host fs ≡ ok tools)
      × AllSafe tools
      × Lists (keys_of fs) tools
unfolding load_tools tool_policy_of keys_of find_tool
load_tools-safe host validates end sound =
    ([], refl, λ name tp e. absurd (cc e), λ name m. elim m [ ])
load_tools-safe host validates (field name v rest) ((cfg, is_obj, s), later) =
    let (tools, loaded, safe, listed) = load_tools-safe host validates rest later in
    (
      (name, s.tool_policy) ∷ tools,
      rw (is_obj, validates cfg s.tool_policy s.denotes, tool_policy_of, loaded) refl,
      AllSafe-cons name s.tool_policy tools s.safe safe,
      Lists-cons name s.tool_policy (keys_of rest) tools listed,
    )

module _ (platform : Platform) (host : Host) (path : String) where
  text_or-str :
      (key default s : String) (raw : Fields)
      → get key raw ≡ some (str s)
      → text_or platform key default raw ≡ s
  unfolding text_or text_of
  text_or-str key default s raw found = rw (found, text_or) refl

  -- The two readers of the file agree.
  load_policy-document_of :
      (raw : Fields)
      → load_policy_yaml host path ≡ ok raw
      → load_policy platform host path ≡ document_of platform host (obj raw)
  unfolding load_policy load_policy_yaml
  load_policy-document_of raw loaded = ground arith

  -- If pydantic's class accepts every mapping that has a value of the right type for each field,
  -- then from a sound policy file `load_policy` makes a document that denies by default, isolates
  -- tenants strictly, lists the tools of the demo, and keeps the security invariants of every tool
  -- it lists.
  pub load_policy-IsSafePolicy :
      Validates host
      → (raw : Fields) → load_policy_yaml host path ≡ ok raw
      → IsSoundPolicy raw
      → (policy : PolicyDocument) × (load_policy platform host path ≡ ok policy)
        × IsSafePolicy policy
  unfolding document_of tools_mapping
  load_policy-IsSafePolicy validates raw loaded s =
      let (tools, made, safe, listed) = load_tools-safe host validates s.tools s.sound in
      (
        record { default_decision = "deny"; tools = tools; tenant_isolation = "strict" },
        load_policy-document_of raw loaded
            ∙ rw
                (
                  s.listed,
                  made,
                  text_or-str "default_decision" "deny" "deny" raw s.denies,
                  text_or-str "tenant_isolation" "strict" "strict" raw s.isolates,
                )
                refl,
        record {
          denies = refl;
          isolates = refl;
          safe = safe;
          demo = λ name m. listed name (s.demo name m);
        },
      )
