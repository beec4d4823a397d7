-- ===== src/Pipeline/Monitor.antt =====
-- The abstract contract of the approval tokens of src/agent_control_plane/approval_tokens.py: a monitor
-- that knows which identifiers are spent.
pub mod Refinement
use mathlib.Core.Option.{some-injective}
use llm_agent_control_plane.Base.{
  ℕ, ◌+◌, ◌≤◌, String, Bool, true, false, ◌||◌, Option, none, some, List, [], ◌∷◌, ◌==◌, ◌≡◌, refl,
  sym, ap, ◌∙◌, ◌⊎◌, inl, inr, In, contains, contains_iff, string_eq, arith, Bool-cases, Result, ok,
  raised, if◌then◌else◌,
}
use llm_agent_control_plane.Models.{AgentRequest, ToolCallPayload, ApprovalToken, PipelineResult}
use llm_agent_control_plane.Platform.{Platform}
use llm_agent_control_plane.Approval.{Registry, mark_approval_token_used}
use llm_agent_control_plane.Approval.GateLaws.{NeedsNone, HasToken, HasFlag, IsApproved}
use llm_agent_control_plane.Pipeline.State.{World, Clock, ControlPlanePipeline, Outcome}
use llm_agent_control_plane.Pipeline.Protected.{consume_token, run_protected}
use llm_agent_control_plane.Pipeline.Safety.{IsCleared, run_protected-IsCleared}
use llm_agent_control_plane.Pipeline.Registry.{IsExecuted, run_protected-used}
use llm_agent_control_plane.Pipeline.Replay.{Turn, protected_turn}

-- Which identifiers are spent: the registry without its order.
abbrev pub Spent : Type 0
Spent = String → Bool

abbrev pub spent_in : Registry → Spent
spent_in used = λ id. contains used id

abbrev pub spend : String → Spent → Spent
spend id s = λ x. x == id || s x

abbrev pub spend? : Option String → Spent → Spent
spend? none s = s
spend? (some id) s = spend id s

-- What one turn does: nothing is executed; a tool that needs no approval is; a tool is on the
-- strength of a token; a tool is on the strength of the flag.
pub data Event : Type 0 where
  idle flagged : Event
  unneeded : Option String → Event
  approved : String → Event

-- The moves of the monitor. A token opens the gate only if its identifier is not spent.
pub data Move : Event → Spent → Spent → Type 0 where
  move_idle : (s : Spent) → Move idle s s
  move_flagged : (s : Spent) → Move flagged s s
  move_unneeded : (o : Option String) (s : Spent) → Move (unneeded o) s (spend? o s)
  move_approved : (id : String) (s : Spent) → s id ≡ false → Move (approved id) s (spend id s)

pub data Moves : List Event → Spent → Spent → Type 0 where
  stop : (s : Spent) → Moves [] s s
  step :
      {e : Event} {es : List Event} {s t u : Spent} → Move e s t → Moves es t u → Moves (e ∷ es) s u

-- How often a token with this identifier opens the gate.
unfoldable pub openings : String → List Event → ℕ
openings id [] = 0
openings id (approved other ∷ es) =
    let rest = openings id es in if other == id then 1 + rest else rest
openings id (e ∷ es) = openings id es

Move-spent : {e : Event} {s t : Spent} (id : String) → Move e s t → s id ≡ true → t id ≡ true
Move-spent id (move_idle s) h = h
Move-spent id (move_flagged s) h = h
Move-spent id (move_unneeded none s) h = h
Move-spent id (move_unneeded (some other) s) h = ground arith
Move-spent id (move_approved other s free) h = ground arith

-- An identifier that is spent opens the gate no more.
openings_of_spent :
    {es : List Event} {s t : Spent} (id : String) → Moves es s t → s id ≡ true → openings id es ≡ 0
unfolding openings
openings_of_spent id (stop s) h = refl
openings_of_spent id (step (move_idle s) rest) h = openings_of_spent id rest h
openings_of_spent id (step (move_flagged s) rest) h = openings_of_spent id rest h
openings_of_spent id (step (move_unneeded o s) rest) h =
    openings_of_spent id rest (Move-spent id (move_unneeded o s) h)
openings_of_spent id (step (move_approved other s free) rest) h =
    let later = openings_of_spent id rest (Move-spent id (move_approved other s free) h) in
    elim (string_eq.dec other id) [
      | yes same ↦ absurd (cc (rw same at free, h))
      | no differ ↦ ground arith
    ]

pub openings_le_one :
    {es : List Event} {s t : Spent} (id : String) → Moves es s t → openings id es ≤ 1
unfolding openings
openings_le_one id (stop s) = omega arith
openings_le_one id (step (move_idle s) rest) = openings_le_one id rest
openings_le_one id (step (move_flagged s) rest) = openings_le_one id rest
openings_le_one id (step (move_unneeded o s) rest) = openings_le_one id rest
openings_le_one id (step (move_approved other s free) rest) = elim (string_eq.dec other id) [
  | yes same ↦ ground (arith, openings_of_spent id rest (ground arith))
  | no differ ↦ ground (arith, openings_le_one id rest)
]

spent_in-mark :
    (id : String) (used : Registry)
    → spent_in (mark_approval_token_used id used) ≡ spend id (spent_in used)
unfolding mark_approval_token_used
spent_in-mark id used = λ i x. pointwise x i
  where
    pointwise :
        (x : String)
        → contains (if contains used id then used else id ∷ used) x ≡ (x == id || contains used x)
    pointwise x = elim (Bool-cases (contains used id)) [
      | inr fresh ↦ rw fresh refl
      | inl spent ↦ ground arith
    ]

abbrev pub id_of : Option ApprovalToken → Option String
id_of none = none
id_of (some token) = some token.approval_id

pub spent_in-consume :
    (o : Option ApprovalToken) (used : Registry)
    → spent_in (consume_token o used) ≡ spend? (id_of o) (spent_in used)
unfolding consume_token
spent_in-consume none used = refl
spent_in-consume (some token) used = spent_in-mark token.approval_id used
