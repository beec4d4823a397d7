-- ===== src/Models/Values.antt =====
-- `dict[str, Any]` and what it holds: the values of JSON. Floats do not occur in the modelled code
-- and are left out; an integer is a sign and a magnitude.
use llm_agent_control_plane.Base.{ℕ, String, Bool, Option, none, some, List, [], ◌∷◌}
use llm_agent_control_plane.Base.{◌==◌, string_eq, if◌then◌else◌}

mutual
  -- The members of an object, in the order of the dict.
  pub data Fields : Type 0 where
    end : Fields
    field : (key : String) → Value → (rest : Fields) → Fields

  pub data Items : Type 0 where
    nil : Items
    cons : (first : Value) → Items → Items

  pub data Value : Type 0 where
    null : Value
    bool : Bool → Value
    int : (negative : Bool) → ℕ → Value
    str : String → Value
    arr : Items → Value
    obj : Fields → Value

-- `d.get(key)`
unfoldable pub get : String → Fields → Option Value
get key end = none
get key (field k v fs) = if k == key then some v else get key fs

-- The values of a list of texts.
unfoldable pub strs : List String → Items
strs [] = nil
strs (s ∷ ss) = cons (str s) (strs ss)

-- A text or None.
unfoldable pub opt_str : Option String → Value
opt_str none = null
opt_str (some s) = str s

-- A Boolean or None.
unfoldable pub opt_bool : Option Bool → Value
opt_bool none = null
opt_bool (some b) = bool b
