-- ===== src/Base/Membership.antt =====
-- Membership of a list by recursion, which the tactics read, and Python's `in` as its test.
use mathlib.Core.Path.{◌≡◌}
use mathlib.Core.Logic.{◌↔◌, ◌⊎◌}
use mathlib.Core.Bool.{true}
use mathlib.Core.List.{List, [], ◌∷◌}
use native.Mathlib.Omega.{arith}
use llm_agent_control_plane.Base.Equality.{Eq, contains}

-- Nowhere in the empty list.
pub data Nowhere {ℓ} : Type ℓ where

abbrev pub In {ℓ} : {A : Type ℓ} → A → List A → Type ℓ
In a [] = Nowhere
In a (x ∷ xs) = (a ≡ x) ⊎ In a xs

module _ {ℓ} {A : Type ℓ} ⦃e : Eq A⦄ where
  pub contains_iff : (xs : List A) (a : A) → (contains xs a ≡ true) ↔ In a xs
  contains_iff [] a = (λ h. cc, λ h. elim h [ ])
  contains_iff (x ∷ xs) a = ground (arith, contains_iff xs a)
