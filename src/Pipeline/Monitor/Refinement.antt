-- ===== src/Pipeline/Monitor/Refinement.antt =====
-- src/agent_control_plane/pipeline.py and approval_tokens.py: the protected turns of a process as moves of
-- the monitor.
use llm_agent_control_plane.Base.{
  ◌≤◌, String, false, Option, none, some, List, [], ◌∷◌, ◌≡◌, refl, ap, ◌∙◌, inl, inr, In, contains,
  contains_iff, string_eq, Bool-cases,
}
use llm_agent_control_plane.Models.{ToolCallPayload, ApprovalToken}
use llm_agent_control_plane.Platform.{Platform}
use llm_agent_control_plane.Approval.{Registry}
use llm_agent_control_plane.Approval.GateLaws.{NeedsNone, HasToken, HasFlag, IsApproved}
use llm_agent_control_plane.Pipeline.State.{World}
use llm_agent_control_plane.Pipeline.Protected.{consume_token}
use llm_agent_control_plane.Pipeline.Safety.{IsCleared}
use llm_agent_control_plane.Pipeline.Registry.{IsExecuted, IsFinished, run_protected-used}
use llm_agent_control_plane.Pipeline.Replay.{Turn, protected_turn}
use llm_agent_control_plane.Pipeline.Monitor.{
  spent_in, spend?, Event, idle, flagged, unneeded, approved, Move, move_idle, move_flagged,
  move_unneeded, move_approved, Moves, stop, step, openings, openings_le_one, id_of,
  spent_in-consume,
}

module _ (platform : Platform) where
  -- What an event says of a turn: idle, that it executed nothing; any other, that its call was
  -- cleared, and that it returned with a tool executed or let the OSError of the audit file
  -- through.
  abbrev pub Explains : Turn platform → World → Event → Type 0
  Explains turn w idle = ¬ IsExecuted (protected_turn platform turn w).0
  Explains turn w (unneeded o) =
      IsFinished turn.clock (protected_turn platform turn w).0
      × (t : ToolCallPayload) × (c : IsCleared platform turn.pipeline turn.policy turn.clock
          turn.request w t)
      × NeedsNone c.authorized.permitted.tool_policy
      × (id_of turn.request.approval_token ≡ o)
  Explains turn w (approved id) =
      IsFinished turn.clock (protected_turn platform turn w).0
      × (t : ToolCallPayload) × (c : IsCleared platform turn.pipeline turn.policy turn.clock
          turn.request w t)
      × HasToken platform turn.request c.authorized.permitted.tool_policy t
          turn.pipeline.options.require_approval_token turn.clock.now w.used
      × (id_of turn.request.approval_token ≡ some id)
  Explains turn w flagged =
      IsFinished turn.clock (protected_turn platform turn w).0
      × (t : ToolCallPayload) × (c : IsCleared platform turn.pipeline turn.policy turn.clock
          turn.request w t)
      × HasFlag platform turn.request c.authorized.permitted.tool_policy t
          turn.pipeline.options.require_approval_token turn.clock.now w.used

  -- What a turn and its world are to an event.
  abbrev pub Matches : Turn platform → World → Event → Type 0
  Matches turn w e =
      Explains turn w e
      × Move e (spent_in w.used) (spent_in (protected_turn platform turn w).1.used)

  unspent : (id : String) (used : Registry) → ¬ In id used → spent_in used id ≡ false
  unspent id used fresh = elim (Bool-cases (contains used id)) [
    | inl spent ↦ absurd (fresh ((contains_iff used id).0 spent))
    | inr free ↦ free
  ]

  consumed_to_spent :
      (token : Option ApprovalToken) (used : Registry) {used' : Registry} {o : Option String}
      → used' ≡ consume_token token used
      → id_of token ≡ o
      → spent_in used' ≡ spend? o (spent_in used)
  consumed_to_spent token used consumed same =
      ap spent_in consumed ∙ spent_in-consume token used ∙ ap (λ o. spend? o (spent_in used)) same

  Matches-of_approved :
      (turn : Turn platform) (w : World)
      → IsFinished turn.clock (protected_turn platform turn w).0
      → (t : ToolCallPayload)
      → (c : IsCleared platform turn.pipeline turn.policy turn.clock turn.request w t)
      → (protected_turn platform turn w).1.used ≡ consume_token turn.request.approval_token w.used
      → IsApproved platform turn.request c.authorized.permitted.tool_policy t
          turn.pipeline.options.require_approval_token turn.clock.now w.used
      → (e : Event) × Matches turn w e
  Matches-of_approved turn w ran t c consumed (inl needless) = (
    unneeded (id_of turn.request.approval_token),
    (
      (ran, t, c, needless, refl),
      rw (consumed_to_spent turn.request.approval_token w.used consumed refl) (move_unneeded _ _),
    ),
  )
  Matches-of_approved turn w ran t c consumed (inr (inl (token, has, fresh, bound))) =
      let named : id_of turn.request.approval_token ≡ some token.approval_id = ap id_of has in
      (
        approved token.approval_id,
        (
          (ran, t, c, (token, has, fresh, bound), named),
          rw (consumed_to_spent turn.request.approval_token w.used consumed named)
              (move_approved token.approval_id _ (unspent token.approval_id w.used fresh.unused)),
        ),
      )
  Matches-of_approved turn w ran t c consumed (inr (inr (bare, lax, human))) =
      let unnamed : id_of turn.request.approval_token ≡ none = ap id_of bare in
      (
        flagged,
        (
          (ran, t, c, (bare, lax, human)),
          rw (consumed_to_spent turn.request.approval_token w.used consumed unnamed)
              (move_flagged _),
        ),
      )

  turn-Matches : (turn : Turn platform) (w : World) → (e : Event) × Matches turn w e
  turn-Matches turn w =
      elim (run_protected-used platform turn.pipeline turn.policy turn.clock turn.request w _ _
        refl) [
          | inl (not_run, same) ↦ (idle, (not_run, rw same (move_idle _)))
          | inr (t, c, finished, consumed) ↦
              Matches-of_approved turn w finished t c consumed c.authorized.approved
        ]

  -- The world after the turns, one after another.
  unfoldable pub after_turns : List (Turn platform) → World → World
  after_turns [] w = w
  after_turns (turn ∷ turns) w = after_turns turns (protected_turn platform turn w).1

  -- Each event says what its turn did.
  abbrev pub AllExplained : List (Turn platform) → World → List Event → Type 0
  AllExplained [] w [] = Unit
  AllExplained (turn ∷ turns) w (e ∷ es) =
      Explains turn w e × AllExplained turns (protected_turn platform turn w).1 es
  AllExplained turns w es = ⊥

  session-Moves :
      (turns : List (Turn platform)) (w : World)
      → (es : List Event) × AllExplained turns w es
        × Moves es (spent_in w.used) (spent_in (after_turns turns w).used)
  unfolding after_turns
  session-Moves [] w = ([], tt, stop _)
  session-Moves (turn ∷ turns) w =
      let (e, (explained, move)) = turn-Matches turn w in
      let (es, later, moves) = session-Moves turns (protected_turn platform turn w).1 in
      (e ∷ es, (explained, later), step move moves)

  -- The protected turns of a process refine the monitor of spent identifiers: whatever the turns
  -- are, and whatever they raise, there are events, one for each turn, that say what it did, and
  -- that are moves of the monitor from the identifiers spent before to those spent after; among
  -- them, a token with a given identifier opens the gate at most once.
  pub session_refines :
      (turns : List (Turn platform)) (w : World)
      → (es : List Event) × AllExplained turns w es
        × Moves es (spent_in w.used) (spent_in (after_turns turns w).used)
        × ((id : String) → openings id es ≤ 1)
  session_refines turns w =
      let (es, explained, moves) = session-Moves turns w in
      (es, explained, moves, λ id. openings_le_one id moves)
