-- ===== src/Json/Sorting.antt =====
-- `sorted` on texts, and the order of its input.
use Prim.Native.String.compare
use Prim.Native.String.{String, [], ◌∷◌, compare, then}
use text.Mathlib.Text.{is_le}
use Prim.Native.Nat.{Ordering, compare as compare_ℕ}
use mathlib.Core.List.{Permᴰ}
use text.Mathlib.TextEquality.{codes_equal}
use llm_agent_control_plane.Base.{
  true, false, ◌≡◌, refl, sym, ◌∙◌, arith, List, code, ltb, eqb, if◌then◌else◌, Char,
}
use llm_agent_control_plane.Json.{str_le, insert_text, sorted}

str_le-nil : (t : String) → str_le [] t ≡ true
unfolding str_le
str_le-nil [] = refl
str_le-nil (d ∷ t) = rw (compare.nil-cons d t) refl

str_le-cons_nil : (c : Char) (s : String) → str_le (c ∷ s) [] ≡ false
unfolding str_le
str_le-cons_nil c s = rw (compare.cons-nil c s) refl

str_le-cons :
    (c d : Char) (s t : String)
    → str_le (c ∷ s) (d ∷ t) ≡ (
        if ltb (code c) (code d) then true else if eqb (code c) (code d) then str_le s t else false)
unfolding str_le
str_le-cons c d s t = rw (compare.cons-cons c d s t) (by_order (compare_ℕ (code c) (code d)))
  where
    by_order :
        (o : Ordering)
        → is_le ((then) o (compare s t)) ≡ (
            if (elim o [ Ordering.lt ↦ true | _ ↦ false ])
            then true
            else if (elim o [ Ordering.eq ↦ true | _ ↦ false ])
            then str_le s t
            else false)
    by_order Ordering.lt = refl
    by_order Ordering.eq = refl
    by_order Ordering.gt = refl

str_le_total : (s t : String) → str_le s t ≡ false → str_le t s ≡ true
str_le_total [] t h = absurd (ground (arith, str_le-nil t))
str_le_total (c ∷ s) [] h = str_le-nil (c ∷ s)
str_le_total (c ∷ s) (d ∷ t) h =
    ground (arith, str_le-cons c d s t, str_le-cons d c t s, str_le_total s t)

str_le_trans : (r s t : String) → str_le r s ≡ true → str_le s t ≡ true → str_le r t ≡ true
str_le_trans [] s t h k = str_le-nil t
str_le_trans (c ∷ r) [] t h k = absurd (ground (arith, str_le-cons_nil c r))
str_le_trans (c ∷ r) (d ∷ s) [] h k = absurd (ground (arith, str_le-cons_nil d s))
str_le_trans (c ∷ r) (d ∷ s) (e ∷ t) h k =
    ground
      (arith, str_le-cons c d r s, str_le-cons d e s t, str_le-cons c e r t, str_le_trans r s t)

str_le_antisym : (s t : String) → str_le s t ≡ true → str_le t s ≡ true → s ≡ t
str_le_antisym [] [] h k = refl
str_le_antisym [] (d ∷ t) h k = absurd (ground (arith, str_le-cons_nil d t))
str_le_antisym (c ∷ s) [] h k = absurd (ground (arith, str_le-cons_nil c s))
str_le_antisym (c ∷ s) (d ∷ t) h k =
    let same : compare_ℕ (code c) (code d) ≡ Ordering.eq =
      ground (arith, str_le-cons c d s t, str_le-cons d c t s) in
    let below : str_le s t ≡ true = ground (arith, str_le-cons c d s t, str_le-cons d c t s) in
    let above : str_le t s ≡ true = ground (arith, str_le-cons c d s t, str_le-cons d c t s) in
    λ i. codes_equal c d same i ∷ str_le_antisym s t below above i

-- Two insertions may change places.
insert_text_comm :
    (a b : String) (xs : List String)
    → insert_text a (insert_text b xs) ≡ insert_text b (insert_text a xs)
unfolding insert_text
insert_text_comm a b List.[] = ground (arith, str_le_total a b, str_le_antisym a b)
insert_text_comm a b (List.◌∷◌ x xs) = ground (
  arith,
  insert_text_comm a b xs,
  str_le_total a b,
  str_le_antisym a b,
  str_le_trans a b x,
  str_le_trans b a x,
  str_le_total a x,
  str_le_total b x,
)

-- Lists that are permutations of each other have the same sorted list.
pub sorted_perm : {xs ys : List String} → Permᴰ xs ys → sorted xs ≡ sorted ys
unfolding sorted
sorted_perm Permᴰ.nil = refl
sorted_perm (Permᴰ.cons e p) = rw (e, sorted_perm p) refl
sorted_perm (Permᴰ.swap {a = a} {b = b} {l = l} e f) =
    rw (sym e, sym f) (insert_text_comm a b (sorted l))
sorted_perm (Permᴰ.trans p q) = sorted_perm p ∙ sorted_perm q
