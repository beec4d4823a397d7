-- ===== src/Platform.antt =====
-- What the program calls and does not implement: the digests of hashlib and hmac, the ISO 8601
-- conversions of datetime, pydantic's validation of a model class, the Unicode database behind
-- `str.lower` and `repr`. They are parameters, fields of the record that every module takes.
pub mod Time
unfoldable pub use Time.*
use llm_agent_control_plane.Base.{ℕ, Char, String, Bool, Option, List}
use llm_agent_control_plane.Models.{Value, Fields, str}

-- `bytes`
abbrev pub Bytes : Type 0
Bytes = List ℕ

-- The annotations that occur in the classes of schemas.py.
pub data Annotation : Type 0 where
  text optional_text text_list : Annotation

-- One field of a pydantic class: its name, its annotation and whether it has a default.
pub record FieldSpec : Type 0 where
  pub name : String
  pub annotation : Annotation
  pub has_default : Bool

pub record Platform : Type 0 where
  -- `hashlib.sha256(s.encode("utf-8")).hexdigest()`
  pub sha256_hex : String → String
  -- `hmac.new(key, s.encode("utf-8"), hashlib.sha256).hexdigest()`
  pub hmac_sha256_hex : Bytes → String → String
  -- `datetime.isoformat` and `datetime.fromisoformat`; `none` is its ValueError.
  pub isoformat : DateTime → String
  pub fromisoformat : String → Option DateTime
  -- `schema.model_validate(arguments)`: none if it returns, else `exc.errors()[0]['type']`.
  pub validation_error : List FieldSpec → Fields → Option String
  -- `base64.b64decode(s, validate=True)`; `none` is its ValueError or binascii.Error.
  pub b64decode : String → Option Bytes
  -- `\w` for one character, by the Unicode database.
  pub is_word : Char → Bool
  -- The order in which a set of texts, given without repetition, is iterated.
  pub set_order : List String → List String
  -- `s.lower()`, `str(value)` and `repr(s)`.
  pub lower : String → String
  pub str_of : Value → String
  pub repr : String → String

-- `str(value)`; of a text it is the text.
unfoldable pub text_of : Platform → Value → String
text_of platform (str s) = s
text_of platform v = platform.str_of v
