-- ===== src/Base/Lines.antt =====
-- Python's `str.splitlines`, `str.split` and the first word of a text.
use Prim.Native.Nat.{ℕ}
use Prim.Native.Char.{Char, code}
use Prim.Native.String.{String}
use mathlib.Core.Path.{◌≡◌, refl}
use mathlib.Core.Bool.{Bool, false, ◌&&◌, ◌||◌}
use mathlib.Core.List.{List, [], ◌∷◌}
use llm_agent_control_plane.Base.Equality.{eqb, leb, if◌then◌else◌}
use llm_agent_control_plane.Base.Texts.{is_space}

-- The first of the parts gets one more character in front.
unfoldable pub prepend : Char → List String → List String
prepend c [] = String.◌∷◌ c "" ∷ []
prepend c (part ∷ parts) = String.◌∷◌ c part ∷ parts

-- `s.split(separator)` for a separator of one character.
unfoldable pub split_on : ℕ → String → List String
unfolding prepend
split_on separator String.[] = "" ∷ []
split_on separator (String.◌∷◌ c s) =
    let parts = split_on separator s in
    if eqb (code c) separator then "" ∷ parts else prepend c parts

-- The ends of lines: \n, \v, \f, \r, the separators 1c to 1e, and U+0085, U+2028, U+2029.
unfoldable pub is_line_end : Char → Bool
is_line_end c =
    let n = code c in
    (leb 10 n && leb n 13)
    || (leb 0x1c n && leb n 0x1e)
    || eqb n 0x85
    || eqb n 0x2028
    || eqb n 0x2029

unfoldable pub is_return : Char → Bool
is_return c = eqb (code c) 13

-- `after_return` says that the character before was \r, which takes a \n with it.
unfoldable pub lines_from : (after_return : Bool) → String → List String
unfolding is_line_end is_return prepend
lines_from after_return String.[] = []
lines_from after_return (String.◌∷◌ c s) =
    let rest = lines_from (is_return c) s in
    if after_return && eqb (code c) 10
    then rest
    else if is_line_end c
    then "" ∷ rest
    else prepend c rest

-- `s.splitlines()`
unfoldable pub split_lines : String → List String
unfolding lines_from
split_lines s = lines_from false s

-- `s.split()[0]` of a text that begins with a character that is not white space.
unfoldable pub first_word : String → String
unfolding is_space
first_word String.[] = ""
first_word (String.◌∷◌ c s) =
    let rest = first_word s in if is_space c then "" else String.◌∷◌ c rest

splits :
    (split_lines "a\r\n\nb\n" ≡ "a" ∷ "" ∷ "b" ∷ []) × (split_on 44 "x,,y" ≡ "x" ∷ "" ∷ "y" ∷ [])
unfolding split_lines split_on
splits = (refl, refl)
