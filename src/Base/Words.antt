-- ===== src/Base/Words.antt =====
-- Texts without white space, which `str.strip`, `str.split` and `str.splitlines` leave whole.
use Prim.Native.Char.{Char}
use Prim.Native.String.append
use Prim.Native.String.{String, ◌++◌ as ◌<>◌}
use mathlib.Core.Path.{◌≡◌, refl, ap, ◌∙◌}
use mathlib.Core.Bool.{Bool, true, false, not, ◌&&◌}
use mathlib.Core.Logic.{inl, inr}
use mathlib.Core.List.{[], ◌∷◌}
use native.Mathlib.Omega.{arith}
use llm_agent_control_plane.Base.Texts.{is_space, lstrip, rstrip, all_space, strip, truthy}
use llm_agent_control_plane.Base.Equality.{Bool-cases}
use llm_agent_control_plane.Base.Lines.{
  is_line_end, is_return, lines_from, split_lines, prepend, first_word,
}

unfoldable pub has_no_space : String → Bool
has_no_space String.[] = true
has_no_space (String.◌∷◌ c s) = not (is_space c) && has_no_space s

is_line_end-is_space : (c : Char) → is_space c ≡ false → is_line_end c ≡ false
unfolding is_line_end is_space
is_line_end-is_space c h = ground arith

is_return-is_space : (c : Char) → is_space c ≡ false → is_return c ≡ false
unfolding is_return is_space
is_return-is_space c h = ground arith

pub has_no_space_head :
    (c : Char) (s : String)
    → has_no_space (String.◌∷◌ c s) ≡ true
    → (is_space c ≡ false) × (has_no_space s ≡ true)
unfolding has_no_space
has_no_space_head c s h = ground arith

rstrip_whole : (s : String) → has_no_space s ≡ true → rstrip s ≡ s
unfolding rstrip all_space
rstrip_whole String.[] h = refl
rstrip_whole (String.◌∷◌ c s) h =
    let (solid, rest) = has_no_space_head c s h in
    rw solid (ap (String.◌∷◌ c) (rstrip_whole s rest))

lstrip_whole : (s : String) → has_no_space s ≡ true → lstrip s ≡ s
unfolding lstrip
lstrip_whole String.[] h = refl
lstrip_whole (String.◌∷◌ c s) h = let (solid, rest) = has_no_space_head c s h in rw solid refl

pub strip_whole : (s : String) → has_no_space s ≡ true → strip s ≡ s
unfolding strip
strip_whole s h = ap rstrip (lstrip_whole s h) ∙ rstrip_whole s h

pub first_word_whole : (s : String) → has_no_space s ≡ true → first_word s ≡ s
unfolding first_word
first_word_whole String.[] h = refl
first_word_whole (String.◌∷◌ c s) h =
    let (solid, rest) = has_no_space_head c s h in
    rw solid (ap (String.◌∷◌ c) (first_word_whole s rest))

-- What a character that does not end a line does.
lines_from-prepend :
    (c : Char) (s : String)
    → is_space c ≡ false
    → lines_from false (String.◌∷◌ c s) ≡ prepend c (lines_from false s)
unfolding lines_from
lines_from-prepend c s solid = rw (is_return-is_space c solid, is_line_end-is_space c solid) refl

lines_from_whole : (s : String) → has_no_space s ≡ true → lines_from false (s <> "\n") ≡ s ∷ []
unfolding lines_from prepend
lines_from_whole String.[] h = refl
lines_from_whole (String.◌∷◌ c s) h =
    let (solid, rest) = has_no_space_head c s h in
    ap (lines_from false) (append.cons c s "\n")
    ∙ lines_from-prepend c (s <> "\n") solid
    ∙ ap (prepend c) (lines_from_whole s rest)

-- A text without white space and a new line are one line.
pub split_lines_whole : (s : String) → has_no_space s ≡ true → split_lines (s <> "\n") ≡ s ∷ []
unfolding split_lines
split_lines_whole s h = lines_from_whole s h

all_space-rstrip : (s : String) → all_space (rstrip s) ≡ all_space s
unfolding rstrip all_space
all_space-rstrip String.[] = refl
all_space-rstrip (String.◌∷◌ c s) = elim (Bool-cases (is_space c && all_space s)) [
  | inl blank ↦ rw blank refl
  | inr ink ↦ rw ink (rw (all_space-rstrip s) ink)
]

-- What `strip` leaves is empty, or has a character that is no space.
pub all_space-strip : (s : String) → truthy (strip s) ≡ true → all_space (strip s) ≡ false
unfolding strip rstrip all_space
all_space-strip s given = trimmed (lstrip s) given
  where
    trimmed : (t : String) → truthy (rstrip t) ≡ true → all_space (rstrip t) ≡ false
    trimmed String.[] h = absurd (cc h)
    trimmed (String.◌∷◌ c t) h = elim (Bool-cases (is_space c && all_space t)) [
      | inl blank ↦ absurd (cc (rw blank at h))
      | inr ink ↦ all_space-rstrip (String.◌∷◌ c t) ∙ ink
    ]
