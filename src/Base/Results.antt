-- ===== src/Base/Results.antt =====
-- Python exceptions as values, and the Boolean and its reason that the checks return.
use Prim.Native.String.{String}
use mathlib.Core.Path.{◌≡◌, refl}
use mathlib.Core.Logic.{◌⊎◌, inl, inr}
use mathlib.Core.Bool.{Bool}

-- The exceptions that the modelled code raises or lets through.
pub data Exc : Type 0 where
  value_error key_error llm_adapter_error configuration_error policy_integrity_error : String → Exc
  os_error yaml_error validation_error runtime_error : String → Exc
  type_error overflow_error : Exc

pub data Result {ℓ} (A : Type ℓ) : Type ℓ where
  ok : A → Result A
  raised : Exc → Result A

module _ {ℓ κ} {A : Type ℓ} {B : Type κ} where
  infixl 5 ◌>>=◌
  -- The rest of a function after a call that may raise.
  abbrev pub ◌>>=◌ : Result A → (A → Result B) → Result B
  raised e >>= rest = raised e
  ok x >>= rest = rest x

  -- A call and its rest return: then so did the call, and the rest from its value.
  pub >>=-eq-ok :
      (call : Result A) (rest : A → Result B) {y : B}
      → (call >>= rest) ≡ ok y
      → (x : A) × (call ≡ ok x) × (rest x ≡ ok y)
  >>=-eq-ok (raised e) rest returned = cc
  >>=-eq-ok (ok x) rest returned = (x, refl, returned)

infixl 5 ◌>>◌
-- The rest after a call that may raise and returns nothing.
abbrev pub ◌>>◌ {ℓ} : {B : Type ℓ} → Result (Unit {0}) → Result B → Result B
m >> k = m >>= λ _. k

pub Result-cases {ℓ} :
    {A : Type ℓ} (r : Result A) → ((a : A) × (r ≡ ok a)) ⊎ ((e : Exc) × (r ≡ raised e))
Result-cases (ok a) = inl (a, refl)
Result-cases (raised e) = inr (e, refl)

-- `tuple[bool, str]`
abbrev pub Verdict : Type 0
Verdict = Bool × String
