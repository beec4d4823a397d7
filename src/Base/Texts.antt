-- ===== src/Base/Texts.antt =====
-- Python's `str` methods over the native texts.
use Prim.Native.Nat.{ℕ, ◌+◌, suc}
use Prim.Native.Char.{Char, code}
use Prim.Native.String
use Prim.Native.String.{String}
use mathlib.Core.Path.{◌≡◌, refl}
use mathlib.Core.Bool.{Bool, true, false, ◌&&◌, ◌||◌}
use mathlib.Core.Option.{Option, none, some}
use mathlib.Core.List.{List, [], ◌∷◌}
use llm_agent_control_plane.Base.Equality.{eqb, leb, if◌then◌else◌}

-- `s.startswith(p)`
unfoldable pub starts_with : String → String → Bool
starts_with s String.[] = true
starts_with String.[] (String.◌∷◌ d p) = false
starts_with (String.◌∷◌ c s) (String.◌∷◌ d p) = eqb (code c) (code d) && starts_with s p

-- `p in s`
unfoldable pub has_substring : String → String → Bool
unfolding starts_with
has_substring String.[] p = starts_with String.[] p
has_substring (String.◌∷◌ c s) p = starts_with (String.◌∷◌ c s) p || has_substring s p

-- `bool(s)` of a text, and of an optional text.
abbrev pub truthy : String → Bool
truthy String.[] = false
truthy (String.◌∷◌ c s) = true

abbrev pub truthy? : Option String → Bool
truthy? none = false
truthy? (some s) = truthy s

-- `separator.join(parts)`
unfoldable pub join : String → List String → String
join separator [] = ""
join separator (s ∷ []) = s
join separator (s ∷ t ∷ rest) = String.◌++◌ s (String.◌++◌ separator (join separator (t ∷ rest)))

-- `c.isspace()`: the white space of `str.strip` and of `\s`.
unfoldable pub is_space : Char → Bool
is_space c =
    let n = code c in
    (leb 9 n && leb n 13)
    || (leb 28 n && leb n 32)
    || eqb n 0x85
    || eqb n 0xa0
    || eqb n 0x1680
    || (leb 0x2000 n && leb n 0x200a)
    || eqb n 0x2028
    || eqb n 0x2029
    || eqb n 0x202f
    || eqb n 0x205f
    || eqb n 0x3000

unfoldable pub lstrip : String → String
unfolding is_space
lstrip String.[] = ""
lstrip (String.◌∷◌ c s) = let rest = lstrip s in if is_space c then rest else String.◌∷◌ c s

unfoldable pub all_space : String → Bool
unfolding is_space
all_space String.[] = true
all_space (String.◌∷◌ c s) = is_space c && all_space s

unfoldable pub rstrip : String → String
unfolding all_space
rstrip String.[] = ""
rstrip (String.◌∷◌ c s) = if all_space (String.◌∷◌ c s) then "" else String.◌∷◌ c (rstrip s)

-- `s.strip()`
unfoldable pub strip : String → String
unfolding lstrip rstrip
strip s = rstrip (lstrip s)

-- `len(s)` and `s[:n]`, in code points.
unfoldable pub length : String → ℕ
length String.[] = 0
length (String.◌∷◌ c s) = suc (length s)

unfoldable pub take : ℕ → String → String
take Prim.Native.Nat.zero s = ""
take (suc n) String.[] = ""
take (suc n) (String.◌∷◌ c s) = String.◌∷◌ c (take n s)

strips : strip "  a b\t " ≡ "a b"
unfolding strip
strips = refl
