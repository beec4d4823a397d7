-- ===== src/Host.antt =====
-- What the program calls and does not implement when it loads its policy and its configuration: the
-- environment, files, YAML, pydantic's `ToolPolicy.model_validate`, and Python's `int` of a text.
-- A path is a text. A YAML document is a JSON value: floats, dates and keys that are not text do not
-- occur in the files that the program reads, and are left out.
use llm_agent_control_plane.Base.{ℤ, String, Bool, Option, Result, Exc}
use llm_agent_control_plane.Models.{Value, Fields}
use llm_agent_control_plane.Platform.{Bytes}
use llm_agent_control_plane.Policy.Types.{ToolPolicy}

pub record Host : Type 0 where
  -- `os.environ.get(name)`
  pub environ : String → Option String
  -- `path.is_file()`, `path.read_text(encoding="utf-8")`, `path.read_bytes()`
  pub is_file : String → Bool
  pub read_text : String → Result String
  -- `path.write_text(text, encoding="utf-8")`; what the file holds afterwards is told where it is
  -- used.
  pub write_text : String → String → Result (Unit {0})
  pub read_bytes : String → Result Bytes
  -- `Path(s).expanduser()`, `path.name`
  pub expanduser : String → String
  pub name_of : String → String
  -- `yaml.safe_load(text)`, which may raise `YAMLError`.
  pub safe_load : String → Result Value
  -- `json.loads(text)`
  pub loads : String → Result Value
  -- `ToolPolicy.model_validate(cfg)`; `none` is its ValidationError.
  pub model_validate : Fields → Option ToolPolicy
  -- `int(s)`; `none` is its ValueError.
  pub int_of : String → Option ℤ
  -- `str(exc)` and `type(exc).__name__`
  pub str_of_exc : Exc → String
  pub type_name : Exc → String
