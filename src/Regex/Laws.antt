-- ===== src/Regex/Laws.antt =====
-- When a pattern is found in a text.
use Prim.Native.String.{String, [], ◌∷◌}
use text.Mathlib.TextLemmas.{nil-append, cons-append}
use llm_agent_control_plane.Base.{
  ℕ, zero, suc, Char, ◌<>◌, Bool, true, Option, none, some, List, map, ◌++◌, ◌≡◌, refl, arith,
  Bool-cases, inl, inr,
}
use llm_agent_control_plane.Regex.{
  Regex, Hit, seq, exact_hits, star_hits, continue, join_hits, hits, first_hit, search_from, search,
  found, at_least,
}

-- The first n characters of the text exist and are in the class.
abbrev pub Starts : (Char → Bool) → ℕ → String → Type 0
Starts cls zero s = Unit
Starts cls (suc n) [] = ⊥
Starts cls (suc n) (c ∷ s) = (cls c ≡ true) × Starts cls n s

abbrev pub NonEmpty {ℓ} : {A : Type ℓ} → List A → Type 0
NonEmpty List.[] = ⊥
NonEmpty (List.◌∷◌ x xs) = Unit

pub NonEmpty-map {ℓ κ} :
    {A : Type ℓ} {B : Type κ} (f : A → B) (xs : List A) → NonEmpty xs → NonEmpty (map f xs)
NonEmpty-map f List.[] h = h
NonEmpty-map f (List.◌∷◌ x xs) h = tt

pub NonEmpty-append_left {ℓ} : {A : Type ℓ} (xs ys : List A) → NonEmpty xs → NonEmpty (xs ++ ys)
NonEmpty-append_left List.[] ys h = elim h [ ]
NonEmpty-append_left (List.◌∷◌ x xs) ys h = tt

NonEmpty-append_right {ℓ} : {A : Type ℓ} (xs ys : List A) → NonEmpty ys → NonEmpty (xs ++ ys)
NonEmpty-append_right List.[] ys h = h
NonEmpty-append_right (List.◌∷◌ x xs) ys h = tt

exact_hits-NonEmpty :
    (cls : Char → Bool) (n : ℕ) (before : Option Char) (s : String)
    → Starts cls n s
    → NonEmpty (exact_hits cls n before s)
unfolding exact_hits
exact_hits-NonEmpty cls zero before s h = tt
exact_hits-NonEmpty cls (suc n) before [] h = h
exact_hits-NonEmpty cls (suc n) before (c ∷ s) h =
    rw h.0 (NonEmpty-map _ (exact_hits cls n (some c) s) (exact_hits-NonEmpty cls n (some c) s h.1))

star_hits-NonEmpty :
    (cls : Char → Bool) (before : Option Char) (s : String) → NonEmpty (star_hits cls before s)
unfolding star_hits
star_hits-NonEmpty cls before [] = tt
star_hits-NonEmpty cls before (c ∷ s) = elim (Bool-cases (cls c)) [
  | inl q ↦ rw q (NonEmpty-append_right (map _ (star_hits cls (some c) s)) _ tt)
  | inr q ↦ rw q tt
]

continue-NonEmpty :
    (hs : List Hit) (next : Hit → List Hit)
    → NonEmpty hs
    → ((h : Hit) → NonEmpty (next h))
    → NonEmpty (continue hs next)
unfolding continue
continue-NonEmpty List.[] next h all = h
continue-NonEmpty (List.◌∷◌ h hs) next _ all =
    NonEmpty-append_left _ _ (NonEmpty-map (join_hits h) (next h) (all h))

pub at_least-NonEmpty :
    (cls : Char → Bool) (n : ℕ) (before : Option Char) (s : String)
    → Starts cls n s
    → NonEmpty (hits (at_least cls n) before s)
unfolding at_least hits
at_least-NonEmpty cls n before s h =
    continue-NonEmpty (exact_hits cls n before s) _ (exact_hits-NonEmpty cls n before s h)
      (λ k. star_hits-NonEmpty cls k.before k.rest)

first_hit-found : (hs : List Hit) → NonEmpty hs → found (first_hit hs) ≡ true
unfolding first_hit
first_hit-found List.[] h = elim h [ ]
first_hit-found (List.◌∷◌ x xs) h = refl

search_from-of_hit :
    (r : Regex) (before : Option Char) (s : String)
    → NonEmpty (hits r before s)
    → found (search_from r before s) ≡ true
unfolding search_from
search_from-of_hit r before [] h = first_hit-found _ h
search_from-of_hit r before (c ∷ s) h = ground (arith, first_hit-found (hits r before (c ∷ s)) h)

search_from-append :
    (r : Regex) (pre s : String) (before : Option Char)
    → ((b : Option Char) → NonEmpty (hits r b s))
    → found (search_from r before (pre <> s)) ≡ true
unfolding search_from
search_from-append r [] s before h = rw nil-append (search_from-of_hit r before s (h before))
search_from-append r (c ∷ pre) s before h =
    rw cons-append (ground (arith, search_from-append r pre s (some c) h))

-- A pattern that matches a text wherever it stands is found in every text that holds it.
pub search-append :
    (r : Regex) (pre s : String)
    → ((b : Option Char) → NonEmpty (hits r b s))
    → found (search r (pre <> s)) ≡ true
unfolding search
search-append r pre s h = search_from-append r pre s none h

pub seq-NonEmpty :
    (r q : Regex) (before : Option Char) (s : String)
    → NonEmpty (hits r before s)
    → ((h : Hit) → NonEmpty (hits q h.before h.rest))
    → NonEmpty (hits (seq r q) before s)
unfolding hits
seq-NonEmpty r q before s h all = continue-NonEmpty (hits r before s) _ h all
