-- ===== src/Policy/Validation.antt =====
-- src/agent_control_plane/policy_integrity.py: the keys, the loading of the file and
-- `validate_policy_invariants`.
pub mod Steps
pub mod Soundness
pub mod Document
use llm_agent_control_plane.Base.{
  ℕ, zero, suc, truthy, String, ◌<>◌, Bool, true, false, not, ◌&&◌, ◌||◌, Option, none, some, List,
  [], ◌∷◌, ◌==◌, ◌!=◌, contains, string_eq, list_eq, Result, ok, raised, ◌>>=◌, ◌>>◌,
  policy_integrity_error, key_error, if◌then◌else◌, join,
}
use llm_agent_control_plane.Models.{
  Value, Items, Fields, null, bool, int, str, arr, obj, nil, cons, end, field, get,
}
use llm_agent_control_plane.Platform.{Platform}
use llm_agent_control_plane.Host.{Host}
use llm_agent_control_plane.Json.{sorted}

-- `ALLOWED_TOP_LEVEL_KEYS`, `REQUIRED_TOOL_KEYS`, `REQUIRED_DEMO_TOOLS`, `BOOL_KEYS`,
-- `VALID_RISK_LEVELS`
abbrev pub allowed_top_level_keys : List String
allowed_top_level_keys = "default_decision" ∷ "tools" ∷ "tenant_isolation" ∷ []

abbrev pub required_tool_keys : List String
required_tool_keys =
    "enabled" ∷ "risk_level" ∷ "external_effect" ∷ "destructive" ∷ "requires_human_approval"
    ∷ "allowed_roles" ∷ []

abbrev pub required_demo_tools : List String
required_demo_tools =
    "read_records" ∷ "send_email" ∷ "export_records" ∷ "delete_records" ∷ "run_shell" ∷ []

abbrev pub bool_keys : List String
bool_keys = "enabled" ∷ "external_effect" ∷ "destructive" ∷ "requires_human_approval" ∷ []

abbrev pub valid_risk_levels : List String
valid_risk_levels = "low" ∷ "medium" ∷ "high" ∷ "critical" ∷ []

-- `raise PolicyIntegrityError(message)`
abbrev pub refuse {ℓ} : {A : Type ℓ} → String → Result A
refuse message = raised (policy_integrity_error message)

-- Go on if the test holds, else raise.
abbrev pub require : Bool → String → Result (Unit {0})
require test message = if test then ok tt else refuse message

-- `set(d.keys())`; a dict has each key once.
unfoldable pub keys_of : Fields → List String
keys_of end = []
keys_of (field k v fs) = k ∷ keys_of fs

-- `a - b` of two sets
unfoldable pub difference : List String → List String → List String
difference [] b = []
difference (x ∷ xs) b = let rest = difference xs b in if contains b x then rest else x ∷ rest

is_empty : List String → Bool
is_empty [] = true
is_empty (x ∷ xs) = false

-- Raise, naming the offending keys in order, if there is one.
unfoldable pub require_none : String → List String → Result (Unit {0})
unfolding is_empty
require_none message found = require (is_empty found) (message <> join ", " (sorted found))

-- `d[key]`
unfoldable pub value_at : String → Fields → Result Value
value_at key fs = elim (get key fs) [ none ↦ raised (key_error key) | some v ↦ ok v ]

unfoldable pub is_bool : Value → Bool
is_bool (bool b) = true
is_bool v = false

unfoldable pub is_list : Value → Bool
is_list (arr vs) = true
is_list v = false

-- `all(isinstance(role, str) for role in roles)`
unfoldable pub all_texts : Items → Bool
all_texts nil = true
all_texts (cons (str s) vs) = all_texts vs
all_texts (cons v vs) = false

-- `bool(v)`
unfoldable pub truthy_value : Value → Bool
truthy_value null = false
truthy_value (bool b) = b
truthy_value (int negative zero) = false
truthy_value (int negative (suc n)) = true
truthy_value (str s) = truthy s
truthy_value (arr nil) = false
truthy_value (arr (cons v vs)) = true
truthy_value (obj end) = false
truthy_value (obj (field k v fs)) = true

-- `roles == ["admin"]`
unfoldable pub is_admin_only : Value → Bool
is_admin_only (arr (cons (str s) nil)) = s == "admin"
is_admin_only v = false

-- `isinstance(risk, str) and risk in VALID_RISK_LEVELS`
unfoldable pub is_risk_level : Value → Bool
is_risk_level (str s) = contains valid_risk_levels s
is_risk_level v = false

unfoldable pub items_of : Value → Items
items_of (arr vs) = vs
items_of v = nil

module _ (platform : Platform) (name : String) where
  -- `f"tool {name!r}"`
  unfoldable pub tool : String
  tool = "tool " <> platform.repr name

  -- The loop over `BOOL_KEYS`, in the order in which the set is iterated.
  unfoldable pub require_bools : List String → Fields → Result (Unit {0})
  unfolding tool
  require_bools [] cfg = ok tt
  require_bools (key ∷ keys) cfg = do
    v ← value_at key cfg
    require (is_bool v) (tool <> (": " <> (key <> " must be a boolean")))
    require_bools keys cfg

  -- `_validate_tool_field_types`
  unfoldable pub validate_tool_field_types : Fields → Result (Unit {0})
  unfolding tool
  validate_tool_field_types cfg = do
    require_bools (platform.set_order bool_keys) cfg
    roles ← value_at "allowed_roles" cfg
    require (is_list roles) (tool <> ": allowed_roles must be a list")
    require (all_texts (items_of roles)) (tool <> ": allowed_roles entries must be strings")
    risk ← value_at "risk_level" cfg
    require (is_risk_level risk)
        (tool <> ": risk_level must be one of ['critical', 'high', 'low', 'medium']")

  -- The parts of `_validate_tool_security_invariants` for send_email and for export_records.
  unfoldable pub validate_send_email : Fields → Result (Unit {0})
  validate_send_email cfg = do
    approval ← value_at "requires_human_approval" cfg
    require (truthy_value approval) "send_email must require human approval"

  unfoldable pub validate_export_records : Value → Fields → Result (Unit {0})
  validate_export_records roles cfg = do
    approval ← value_at "requires_human_approval" cfg
    require (truthy_value approval) "export_records must require human approval"
    require (is_admin_only roles) "export_records allowed_roles must be ['admin'] only"

  -- The part that goes by the tool's name.
  unfoldable pub validate_named_tool : Bool → Value → Fields → Result (Unit {0})
  unfolding validate_send_email validate_export_records
  validate_named_tool enabled roles cfg =
      if name == "run_shell" && enabled
      then refuse "run_shell must remain disabled (enabled: false)"
      else if name == "send_email"
      then validate_send_email cfg
      else if name == "export_records"
      then validate_export_records roles cfg
      else ok tt

  -- `_validate_tool_security_invariants`
  unfoldable pub validate_tool_security_invariants : Fields → Result (Unit {0})
  unfolding tool
  validate_tool_security_invariants cfg = do
    enabled ← value_at "enabled" cfg
    roles ← value_at "allowed_roles" cfg
    require (not (truthy_value enabled && not (truthy_value roles)))
        (tool <> ": enabled tools must declare at least one allowed role")
    validate_named_tool (truthy_value enabled) roles cfg

  -- The body of the loop over the tools, for a mapping.
  unfoldable pub validate_tool : Fields → Result (Unit {0})
  unfolding tool
  validate_tool cfg = do
    require_none (tool <> " has unknown keys: ") (difference (keys_of cfg) required_tool_keys)
    require_none (tool <> " missing fields: ") (difference required_tool_keys (keys_of cfg))
    validate_tool_field_types cfg
    validate_tool_security_invariants cfg

  unfoldable pub validate_entry : Value → Result (Unit {0})
  unfolding tool
  validate_entry (obj cfg) = validate_tool cfg
  validate_entry v = refuse (tool <> " must be a mapping")

-- `raw.get(key) == text`
unfoldable pub has_text : String → String → Fields → Bool
has_text key text raw = elim (get key raw) [ some (str s) ↦ s == text | _ ↦ false ]

module _ (platform : Platform) where
  -- The loop over `tools_raw.items()`
  unfoldable pub validate_tools : Fields → Result (Unit {0})
  validate_tools end = ok tt
  validate_tools (field name v rest) = do validate_entry platform name v; validate_tools rest

  unfoldable pub validate_mapping : Option Value → Result (Unit {0})
  validate_mapping (some (obj tools_raw)) = do
    require (truthy_value (obj tools_raw)) "tools mapping must not be empty"
    require_none "missing required demo tools: "
        (difference required_demo_tools (keys_of tools_raw))
    validate_tools tools_raw
  validate_mapping v = refuse "tools must be a mapping"

  -- `validate_policy_invariants`
  unfoldable pub validate_policy_invariants : Fields → Result (Unit {0})
  unfolding has_text
  validate_policy_invariants raw = do
    require_none "unknown top-level keys: " (difference (keys_of raw) allowed_top_level_keys)
    require (has_text "default_decision" "deny" raw) "default_decision must be 'deny'"
    require (has_text "tenant_isolation" "strict" raw) "tenant_isolation must be 'strict'"
    validate_mapping (get "tools" raw)

-- `load_policy_yaml`
unfoldable pub load_policy_yaml : Host → String → Result Fields
load_policy_yaml host path =
    if not (host.is_file path) then refuse ("policy file not found: " <> path) else do
      text ← host.read_text path
      raw ← host.safe_load text
      elim raw [ obj fs ↦ ok fs | _ ↦ refuse "policy root must be a mapping" ]
