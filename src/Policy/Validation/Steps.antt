-- ===== src/Policy/Validation/Steps.antt =====
-- The steps that src/agent_control_plane/policy_integrity.py is made of: when each goes through.
use llm_agent_control_plane.Base.{
  ◌>>◌, String, Bool, true, some, List, [], ◌∷◌, ◌≡◌, refl, ap, ◌∙◌, ◌↔◌, inl, inr, In, contains,
  contains_iff, string_eq, arith, Bool-cases, Option-cases, Result, ok, raised, ◌>>=◌,
}
use llm_agent_control_plane.Platform.{Platform}
use llm_agent_control_plane.Models.{
  RiskLevel, low, medium, high, critical, risk_value, Value, Items, Fields, bool, str, arr, nil,
  cons, get, strs,
}
use llm_agent_control_plane.Policy.Validation.{
  valid_risk_levels, is_risk_level, require_bools, require, difference, require_none, value_at,
  is_bool, is_list, all_texts, items_of,
}

pub require_iff : (test : Bool) (message : String) → (require test message ≡ ok tt) ↔ (test ≡ true)
require_iff test message = ground arith

pub >>_iff : (m k : Result (Unit {0})) → ((m >> k) ≡ ok tt) ↔ ((m ≡ ok tt) × (k ≡ ok tt))
>>_iff (ok u) k = (λ h. (refl, h), λ h. h.1)
>>_iff (raised e) k = (λ h. cc, λ h. cc)

-- The keys of a that are not in b are none exactly if all are in b.
pub difference-nil_iff :
    (a b : List String) → (difference a b ≡ []) ↔ ((k : String) → In k a → In k b)
unfolding difference
difference-nil_iff [] b = (λ h k m. elim m [ ], λ h. refl)
difference-nil_iff (x ∷ xs) b = elim (Bool-cases (contains b x)) [
  | inl inside ↦ (
    λ h. cover (difference-nil_iff xs b) ((contains_iff b x).0 inside) (rw inside at h),
    λ h. rw inside ((difference-nil_iff xs b).1 (λ k m. h k (inr m))),
  )
  | inr outside ↦
      (λ h. absurd (ground arith), λ h. absurd (cc ((contains_iff b x).1 (h x (inl refl)))))
]
  where
    cover :
        (difference xs b ≡ []) ↔ ((k : String) → In k xs → In k b)
        → In x b
        → difference xs b ≡ []
        → (k : String) → In k (x ∷ xs)
        → In k b
    cover rest here h k (inl same) = rw same here
    cover rest here h k (inr m) = rest.0 h k m

pub require_none_iff :
    (message : String) (found : List String) → (require_none message found ≡ ok tt) ↔ (found ≡ [])
unfolding require_none
require_none_iff message [] = (λ h. refl, λ h. refl)
require_none_iff message (x ∷ xs) = (λ h. cc, λ h. cc)

-- `d[key]` and what follows go through.
pub value_at_iff :
    (key : String) (fs : Fields) (rest : Value → Result (Unit {0}))
    → ((value_at key fs >>= rest) ≡ ok tt)
      ↔ ((v : Value) × (get key fs ≡ some v) × (rest v ≡ ok tt))
unfolding value_at
value_at_iff key fs rest = elim (Option-cases (get key fs)) [
  | inl missing ↦ (λ h. absurd (ground arith), λ (v, e, h). absurd (ground arith))
  | inr (v, found) ↦ (λ h. (v, found, ground arith), λ (w, e, h). ground arith)
]

pub value_at-eq-ok :
    (key : String) (fs : Fields) {v : Value} → get key fs ≡ some v → value_at key fs ≡ ok v
unfolding value_at
value_at-eq-ok key fs found = rw (found, value_at) refl

is_bool_iff : (v : Value) → (is_bool v ≡ true) ↔ ((b : Bool) × (v ≡ bool b))
unfolding is_bool
is_bool_iff (bool b) = (λ h. (b, refl), λ h. refl)
is_bool_iff v = (λ h. cc, λ h. absurd (ground (arith, h.1)))

all_texts-strs : (ss : List String) → all_texts (strs ss) ≡ true
unfolding all_texts strs
all_texts-strs [] = refl
all_texts-strs (s ∷ ss) = all_texts-strs ss

strs_of_all_texts : (vs : Items) → all_texts vs ≡ true → (ss : List String) × (vs ≡ strs ss)
unfolding all_texts strs
strs_of_all_texts nil h = ([], refl)
strs_of_all_texts (cons (str s) vs) h =
    let (ss, e) = strs_of_all_texts vs h in (s ∷ ss, ap (cons (str s)) e)
strs_of_all_texts (cons v vs) h = absurd (ground arith)

-- A list of texts is what the two checks of allowed_roles let through.
pub roles_iff :
    (v : Value)
    → ((is_list v ≡ true) × (all_texts (items_of v) ≡ true))
      ↔ ((ss : List String) × (v ≡ arr (strs ss)))
unfolding is_list items_of
roles_iff (arr vs) = (
  λ (_, h). let (ss, e) = strs_of_all_texts vs h in (ss, ap arr e),
  λ (ss, e). let same : vs ≡ strs ss = cc in (refl, rw same (all_texts-strs ss)),
)
roles_iff v = (λ h. absurd (ground arith), λ (ss, e). absurd (cc e))

-- Every key in the list has a Boolean value.
abbrev pub AllBools : List String → Fields → Type 0
AllBools keys cfg = (k : String) → In k keys → (b : Bool) × (get k cfg ≡ some (bool b))

is_risk_level_of_In :
    (s : String) → In s valid_risk_levels → (r : RiskLevel) × (str s ≡ str (risk_value r))
unfolding risk_value
is_risk_level_of_In s (inl e) = (low, ap str e)
is_risk_level_of_In s (inr (inl e)) = (medium, ap str e)
is_risk_level_of_In s (inr (inr (inl e))) = (high, ap str e)
is_risk_level_of_In s (inr (inr (inr (inl e)))) = (critical, ap str e)
is_risk_level_of_In s (inr (inr (inr (inr h)))) = elim h [ ]

risk_value-In : (r : RiskLevel) → In (risk_value r) valid_risk_levels
unfolding risk_value
risk_value-In low = inl refl
risk_value-In medium = inr (inl refl)
risk_value-In high = inr (inr (inl refl))
risk_value-In critical = inr (inr (inr (inl refl)))

pub is_risk_level_iff :
    (v : Value) → (is_risk_level v ≡ true) ↔ ((r : RiskLevel) × (v ≡ str (risk_value r)))
unfolding is_risk_level
is_risk_level_iff (str s) = (
  λ h. is_risk_level_of_In s ((contains_iff valid_risk_levels s).0 h),
  λ (r, e).
      let same : s ≡ risk_value r = cc in
      (contains_iff valid_risk_levels s).1 (rw same (risk_value-In r)),
)
is_risk_level_iff v = (λ h. absurd (ground arith), λ (r, e). absurd (cc e))

module _ (platform : Platform) (name : String) where
  pub require_bools_iff :
      (keys : List String) (cfg : Fields)
      → (require_bools platform name keys cfg ≡ ok tt) ↔ AllBools keys cfg
  unfolding require_bools
  require_bools_iff [] cfg = (λ h k m. elim m [ ], λ h. refl)
  require_bools_iff (key ∷ keys) cfg = (
    λ h.
        let (v, found, rest) = (value_at_iff key cfg _).0 h in
        let (good, later) = (>>_iff _ _).0 rest in
        let (b, e) = (is_bool_iff v).0 ((require_iff _ _).0 good) in
        cover b (found ∙ ap some e) ((require_bools_iff keys cfg).0 later),
    λ all.
        let (b, found) = all key (inl refl) in
        (value_at_iff key cfg _).1 (
          bool b,
          found,
          (>>_iff _ _).1 (
            (require_iff _ _).1 ((is_bool_iff (bool b)).1 (b, refl)),
            (require_bools_iff keys cfg).1 (λ k m. all k (inr m)),
          ),
        ),
  )
    where
      cover :
          (b : Bool) → get key cfg ≡ some (bool b) → AllBools keys cfg → AllBools (key ∷ keys) cfg
      cover b here rest k (inl same) = (b, rw same here)
      cover b here rest k (inr m) = rest k m
