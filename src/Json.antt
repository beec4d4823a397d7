-- ===== src/Json.antt =====
-- `json.dumps` of the standard library, with `ensure_ascii`, as the program calls it: with or without
-- `sort_keys`, with the default separators or the compact ones; and `sorted` of texts.
pub mod Sorting
use Prim.Native.String.{compare}
use text.Mathlib.Text.{is_le}
use llm_agent_control_plane.Base.{
  ℕ, zero, suc, ◌+◌, ◌-◌, ◌/◌, ◌%◌, String, ◌<>◌, code, Bool, true, false, ◌&&◌, List, [], ◌∷◌, eqb,
  leb, ltb, if◌then◌else◌, join, ◌≡◌, refl,
}
use llm_agent_control_plane.Models.{
  Value, Items, Fields, null, bool, int, str, arr, obj, nil, cons, end, field,
}

-- `a <= b` on texts: by code points, which is the order of their UTF-8 bytes.
unfoldable pub str_le : String → String → Bool
str_le a b = is_le (compare a b)

-- `sorted(texts)`
unfoldable pub insert_text : String → List String → List String
insert_text s [] = s ∷ []
insert_text s (t ∷ ts) = if str_le s t then s ∷ t ∷ ts else t ∷ insert_text s ts

unfoldable pub sorted : List String → List String
unfolding insert_text str_le
sorted [] = []
sorted (s ∷ ss) = insert_text s (sorted ss)

hex_digit : ℕ → String
hex_digit d =
    if eqb d 0
    then "0"
    else if eqb d 1
    then "1"
    else if eqb d 2
    then "2"
    else if eqb d 3
    then "3"
    else if eqb d 4
    then "4"
    else if eqb d 5
    then "5"
    else if eqb d 6
    then "6"
    else if eqb d 7
    then "7"
    else if eqb d 8
    then "8"
    else if eqb d 9
    then "9"
    else if eqb d 10
    then "a"
    else if eqb d 11
    then "b"
    else if eqb d 12
    then "c"
    else if eqb d 13
    then "d"
    else if eqb d 14
    then "e"
    else "f"

-- `\uXXXX`
escape_unit : ℕ → String
unfolding hex_digit
escape_unit n =
    "\\u"
    <> (hex_digit (n / 4096 % 16)
        <> (hex_digit (n / 256 % 16) <> (hex_digit (n / 16 % 16) <> hex_digit (n % 16))))

-- One character of a JSON text; one beyond the basic plane is a surrogate pair.
escape_code : ℕ → String → String
unfolding escape_unit
escape_code n plain =
    if eqb n 0x22
    then "\\\""
    else if eqb n 0x5c
    then "\\\\"
    else if eqb n 10
    then "\\n"
    else if eqb n 13
    then "\\r"
    else if eqb n 9
    then "\\t"
    else if eqb n 12
    then "\\f"
    else if eqb n 8
    then "\\b"
    else if leb 0x20 n && leb n 0x7e
    then plain
    else if leb n 0xffff
    then escape_unit n
    else escape_unit (0xd800 + (n - 0x10000) / 1024) <> escape_unit (0xdc00 + (n - 0x10000) % 1024)

unfoldable pub escape : String → String
unfolding escape_code
escape String.[] = ""
escape (String.◌∷◌ c s) = escape_code (code c) (String.◌∷◌ c "") <> escape s

unfoldable pub quote : String → String
unfolding escape
quote s = "\"" <> (escape s <> "\"")

-- Decimal digits; a number has at most as many as its value.
decimal_from : ℕ → ℕ → String → String
unfolding hex_digit
decimal_from zero n rest = rest
decimal_from (suc fuel) n rest =
    let more = decimal_from fuel (n / 10) (hex_digit (n % 10) <> rest) in
    if ltb n 10 then hex_digit n <> rest else more

unfoldable pub decimal : ℕ → String
unfolding decimal_from
decimal n = decimal_from (suc n) n ""

-- `sort_keys`: the rendered members in the order of their keys.
abbrev Member : Type 0
Member = String × String

insert_member : Member → List Member → List Member
unfolding str_le
insert_member m [] = m ∷ []
insert_member m (n ∷ ms) = if str_le m.0 n.0 then m ∷ n ∷ ms else n ∷ insert_member m ms

sort_members : List Member → List Member
unfolding insert_member
sort_members [] = []
sort_members (m ∷ ms) = insert_member m (sort_members ms)

member_texts : String → List Member → List String
unfolding quote
member_texts key_separator [] = []
member_texts key_separator ((k, v) ∷ ms) =
    (quote k <> (key_separator <> v)) ∷ member_texts key_separator ms

object_text : Bool → String → String → List Member → String
unfolding sort_members member_texts join
object_text sort_keys item_separator key_separator ms =
    "{"
    <> (join item_separator (member_texts key_separator (if sort_keys then sort_members ms else ms))
        <> "}")

integer_text : Bool → ℕ → String
unfolding decimal
integer_text true n = "-" <> decimal n
integer_text false n = decimal n

module _ (sort_keys : Bool) (item_separator key_separator : String) where
  unfoldable mutual
    unfolding quote join integer_text object_text

    pub dumps : Value → String
    dumps null = "null"
    dumps (bool true) = "true"
    dumps (bool false) = "false"
    dumps (int negative n) = integer_text negative n
    dumps (str s) = quote s
    dumps (arr vs) = "[" <> (join item_separator (dump_items vs) <> "]")
    dumps (obj fs) = object_text sort_keys item_separator key_separator (dump_fields fs)

    dump_items : Items → List String
    dump_items nil = []
    dump_items (cons v vs) = dumps v ∷ dump_items vs

    dump_fields : Fields → List Member
    dump_fields end = []
    dump_fields (field k v fs) = (k, dumps v) ∷ dump_fields fs

-- `json.dumps(v, sort_keys=True, separators=(",", ":"))`
unfoldable pub canonical_json : Value → String
unfolding dumps
canonical_json v = dumps true "," ":" v

-- `json.dumps(v, sort_keys=True)`
unfoldable pub sorted_json : Value → String
unfolding dumps
sorted_json v = dumps true ", " ": " v

-- `json.dumps(v, separators=(",", ":"))`
unfoldable pub compact_json : Value → String
unfolding dumps
compact_json v = dumps false "," ":" v

dumps_example :
    canonical_json (
      obj (
        field "b"
          (arr (cons (int false 12) (cons null nil)))
          (field "a" (str "q\"é\n") (field "c" (obj end) end))))
    ≡ "{\"a\":\"q\\\"\\u00e9\\n\",\"b\":[12,null],\"c\":{}}"
unfolding canonical_json
dumps_example = refl
