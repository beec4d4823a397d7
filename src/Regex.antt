-- ===== src/Regex.antt =====
-- The part of Python's `re` that the program's patterns need. A pattern's matches at a place are
-- listed in the order in which `re` tries them, so that the first is the match that it reports.
pub mod Classes
pub mod Laws
unfoldable pub use Classes.*
use Prim.Native.String.{String, [], ◌∷◌}
use mathlib.Core.List
use llm_agent_control_plane.Base.{
  ℕ, zero, suc, ◌-◌, Char, code, ◌<>◌, Bool, true, false, ◌&&◌, ◌||◌, not, Option, none, some, List,
  eqb, if◌then◌else◌, map, ◌++◌, length,
}

pub data Regex : Type 0 where
  -- A literal text, and one under IGNORECASE (spelled in lower case).
  lit lit_ci : String → Regex
  -- Exactly n characters of a class; any number of them, greedy or lazy.
  exact : (Char → Bool) → ℕ → Regex
  star lazy_star : (Char → Bool) → Regex
  -- Sequence, `r|s`, `(r)`.
  seq alt : Regex → Regex → Regex
  group : Regex → Regex
  -- `^`, `$`; and `\b`, given the test for `\w`.
  start finish : Regex
  boundary : (Char → Bool) → Regex

-- A match: its text, the text of the last group in it, the character before the place where it
-- ends and the text after it.
pub record Hit : Type 0 where
  pub taken : String
  pub captured : Option String
  pub before : Option Char
  pub rest : String

abbrev empty_hit : Option Char → String → Hit
empty_hit before rest = record { taken = ""; captured = none; before = before; rest = rest }

abbrev extend : Char → Hit → Hit
extend c h = record h { taken = c ∷ h.taken }

later_group : Option String → Option String → Option String
later_group first none = first
later_group first (some g) = some g

unfoldable pub join_hits : Hit → Hit → Hit
unfolding later_group
join_hits h k = record k {
  taken = h.taken <> k.taken;
  captured = later_group h.captured k.captured;
}

capture : Hit → Hit
capture h = record h { captured = some h.taken }

unfoldable pub literal_hits : (Char → Char → Bool) → String → Option Char → String → List Hit
literal_hits same [] before s = List.◌∷◌ (empty_hit before s) List.[]
literal_hits same (d ∷ t) before [] = List.[]
literal_hits same (d ∷ t) before (c ∷ s) =
    let more = map (extend c) (literal_hits same t (some c) s) in if same c d then more else List.[]

unfoldable pub exact_hits : (Char → Bool) → ℕ → Option Char → String → List Hit
exact_hits cls zero before s = List.◌∷◌ (empty_hit before s) List.[]
exact_hits cls (suc n) before [] = List.[]
exact_hits cls (suc n) before (c ∷ s) =
    let more = map (extend c) (exact_hits cls n (some c) s) in if cls c then more else List.[]

unfoldable pub star_hits : (Char → Bool) → Option Char → String → List Hit
star_hits cls before [] = List.◌∷◌ (empty_hit before "") List.[]
star_hits cls before (c ∷ s) =
    let stop = List.◌∷◌ (empty_hit before (c ∷ s)) List.[] in
    let more = map (extend c) (star_hits cls (some c) s) ++ stop in if cls c then more else stop

lazy_hits : (Char → Bool) → Option Char → String → List Hit
lazy_hits cls before [] = List.◌∷◌ (empty_hit before "") List.[]
lazy_hits cls before (c ∷ s) =
    let stop = List.◌∷◌ (empty_hit before (c ∷ s)) List.[] in
    let more = stop ++ map (extend c) (lazy_hits cls (some c) s) in if cls c then more else stop

-- Continue every hit, in order.
unfoldable pub continue : List Hit → (Hit → List Hit) → List Hit
continue List.[] next = List.[]
continue (List.◌∷◌ h hs) next = map (join_hits h) (next h) ++ continue hs next

at_start : Option Char → Bool
at_start none = true
at_start (some c) = false

at_finish : String → Bool
at_finish [] = true
at_finish (c ∷ []) = eqb (code c) 10
at_finish (c ∷ d ∷ s) = false

next_char : String → Option Char
next_char [] = none
next_char (c ∷ s) = some c

is_word_at : (Char → Bool) → Option Char → Bool
is_word_at word none = false
is_word_at word (some c) = word c

unfoldable pub hits : Regex → Option Char → String → List Hit
unfolding literal_hits exact_hits star_hits lazy_hits continue join_hits capture same_char
    same_char_ci at_start at_finish next_char is_word_at
hits (lit t) before s = literal_hits same_char t before s
hits (lit_ci t) before s = literal_hits same_char_ci t before s
hits (exact cls n) before s = exact_hits cls n before s
hits (star cls) before s = star_hits cls before s
hits (lazy_star cls) before s = lazy_hits cls before s
hits (seq r q) before s = continue (hits r before s) (λ h. hits q h.before h.rest)
hits (alt r q) before s = hits r before s ++ hits q before s
hits (group r) before s = map capture (hits r before s)
hits start before s = if at_start before then List.◌∷◌ (empty_hit before s) List.[] else List.[]
hits finish before s = if at_finish s then List.◌∷◌ (empty_hit before s) List.[] else List.[]
hits (boundary word) before s =
    let here = is_word_at word before in
    let there = is_word_at word (next_char s) in
    if (here && not there) || (there && not here)
    then List.◌∷◌ (empty_hit before s) List.[]
    else List.[]

-- `pattern.match` at a place.
unfoldable pub first_hit : List Hit → Option Hit
first_hit List.[] = none
first_hit (List.◌∷◌ h hs) = some h

unfoldable pub search_from : Regex → Option Char → String → Option Hit
unfolding first_hit
search_from r before [] = first_hit (hits r before "")
search_from r before (c ∷ s) =
    let later = search_from r (some c) s in
    elim (first_hit (hits r before (c ∷ s))) [ none ↦ later | some h ↦ some h ]

-- `pattern.search(s)`
unfoldable pub search : Regex → String → Option Hit
unfolding search_from
search r s = search_from r none s

abbrev pub found : Option Hit → Bool
found none = false
found (some h) = true

-- `skip` characters belong to the match before. No pattern of the program matches the empty text.
find_from : Regex → Option Char → ℕ → String → List Hit
unfolding first_hit
find_from r before skip [] = List.[]
find_from r before (suc skip) (c ∷ s) = find_from r (some c) skip s
find_from r before zero (c ∷ s) =
    let none_here = find_from r (some c) zero s in
    elim (first_hit (hits r before (c ∷ s))) [
      | none ↦ none_here
      | some h ↦ List.◌∷◌ h (find_from r (some c) (length h.taken - 1) s)
    ]

-- `pattern.finditer(s)`
unfoldable pub find_all : Regex → String → List Hit
unfolding find_from
find_all r s = find_from r none 0 s

sub_from : Regex → String → Option Char → ℕ → String → String
unfolding first_hit
sub_from r replacement before skip [] = ""
sub_from r replacement before (suc skip) (c ∷ s) = sub_from r replacement (some c) skip s
sub_from r replacement before zero (c ∷ s) =
    let kept = c ∷ sub_from r replacement (some c) zero s in
    elim (first_hit (hits r before (c ∷ s))) [
      | none ↦ kept
      | some h ↦ replacement <> sub_from r replacement (some c) (length h.taken - 1) s
    ]

-- `pattern.sub(replacement, s)`
unfoldable pub sub : Regex → String → String → String
unfolding sub_from
sub r replacement s = sub_from r replacement none 0 s

-- `[cls]{n,}`, `[cls]+`, `r?`
unfoldable pub at_least : (Char → Bool) → ℕ → Regex
at_least cls n = seq (exact cls n) (star cls)

unfoldable pub optional : Regex → Regex
optional r = alt r (lit "")
