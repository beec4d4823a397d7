-- ===== src/Pipeline/Telling.antt =====
-- What an audit event of src/agent_control_plane/pipeline.py tells of the turn that wrote it.
use text.Mathlib.TextEquality.{eq_iff}
use llm_agent_control_plane.Base.{
  Option-cases, inl, inr, Exc, String, Bool, true, false, Option, none, some, [], ◌∷◌, ◌++◌, ◌≡◌,
  refl, sym, ◌≢◌, ◌↔◌, ◌⊎◌, arith, ok, raised,
}
use llm_agent_control_plane.Models.{
  AgentRequest, ToolCallPayload, BrokerDecision, PolicyDecision, PipelineResult, ApprovalToken,
}
use llm_agent_control_plane.Audit.{AuditEvent, audit_line, write}
use llm_agent_control_plane.Pipeline.Events.{
  blocked_event_type, with_approval, tool_event, audit_event_for_tool,
}
use llm_agent_control_plane.Pipeline.State.{World, Clock, Outcome, log_then}

pub blocked_event_type-ne : (reason : String) → blocked_event_type reason ≢ "tool_allowed"
unfolding blocked_event_type
blocked_event_type-ne reason = ground (
  arith,
  eq_iff "cross_tenant_blocked" "tool_allowed",
  eq_iff "approval_denied" "tool_allowed",
  eq_iff "provenance_denied" "tool_allowed",
  eq_iff "tool_blocked" "tool_allowed",
)

-- An event that tells of a result.
pub record TellsOf (request : AgentRequest) (r : PipelineResult) (e : AuditEvent) : Type 0 where
  pub same_request : e.request_id ≡ request.request_id
  pub same_tenant : e.tenant_id ≡ request.tenant_id
  pub same_allowed : e.allowed ≡ r.allowed
  pub same_stage : e.stage ≡ r.stage
  pub same_reason : e.policy_reason ≡ r.reason
  pub execution : (e.event_type ≡ "tool_allowed") ↔ (r.tool_executed ≡ true)

with_approval-TellsOf :
    (request : AgentRequest) (r : PipelineResult) (b : Option BrokerDecision)
    (o : Option ApprovalToken) (e : AuditEvent)
    → TellsOf request r e
    → TellsOf request r (with_approval b o e)
unfolding with_approval
with_approval-TellsOf request r (some b) o e h = ground (arith, h)
with_approval-TellsOf request r none (some token) e h = ground (arith, h)
with_approval-TellsOf request r none none e h = h

pub tool_event-TellsOf :
    (request : AgentRequest) (r : PipelineResult) (t : ToolCallPayload) (event_type stage : String)
    (allowed : Bool) (reason : String) (human : Bool) (d : Option PolicyDecision)
    (b : Option BrokerDecision)
    → r.allowed ≡ allowed
    → r.stage ≡ stage
    → r.reason ≡ reason
    → (event_type ≡ "tool_allowed") ↔ (r.tool_executed ≡ true)
    → TellsOf request r (audit_event_for_tool request t event_type stage allowed reason human d b)
unfolding audit_event_for_tool tool_event
tool_event-TellsOf request r t event_type stage allowed reason human d b p q s x =
    with_approval-TellsOf request r b request.approval_token
      (tool_event request t event_type stage allowed reason human d)
      (record {
        same_request = refl;
        same_tenant = refl;
        same_allowed = sym p;
        same_stage = sym q;
        same_reason = sym s;
        execution = x;
      })

-- One line was appended, about the result.
abbrev pub OneLine : Clock → AgentRequest → World → PipelineResult → World → Type 0
OneLine clock request w r w' =
    (e : AuditEvent) × (w'.lines ≡ w.lines ++ audit_line clock.stamp e ∷ []) × TellsOf request r e

-- What a turn leaves in the audit file: a line about its result; or, where it lets an exception
-- through, no line, or one that says that the adapter failed.
abbrev pub Audited : Clock → AgentRequest → World → Outcome PipelineResult → Type 0
Audited clock request w (ok r, w') = OneLine clock request w r w'
Audited clock request w (raised x, w') =
    (w'.lines ≡ w.lines)
    ⊎ ((e : AuditEvent) × (w'.lines ≡ w.lines ++ audit_line clock.stamp e ∷ [])
        × (e.request_id ≡ request.request_id)
        × (e.event_type ≡ "adapter_failure")
        × (e.allowed ≡ false))

pub log_then-Audited :
    (clock : Clock) (request : AgentRequest) (w v : World)
    → v.lines ≡ w.lines
    → (e : AuditEvent) (r : PipelineResult) → TellsOf request r e
    → Audited clock request w (log_then clock e v (ok r))
unfolding log_then write
log_then-Audited clock request w v same e r tells = elim (Option-cases clock.audit_fault) [
  | inl sound ↦ rw (sound, same) (e, refl, tells)
  | inr (message, broken) ↦ rw broken (inl same)
]

pub log_then-Audited_failure :
    (clock : Clock) (request : AgentRequest) (w : World) (e : AuditEvent) (x : Exc)
    → e.request_id ≡ request.request_id
    → e.event_type ≡ "adapter_failure"
    → e.allowed ≡ false
    → Audited clock request w (log_then clock e w (raised x))
unfolding log_then write
log_then-Audited_failure clock request w e x named failure denied =
    elim (Option-cases clock.audit_fault) [
      | inl sound ↦ rw sound (inr (e, refl, named, failure, denied))
      | inr (message, broken) ↦ rw broken (inl refl)
    ]
