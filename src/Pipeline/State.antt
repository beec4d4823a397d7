-- ===== src/Pipeline/State.antt =====
-- What a turn reads and changes: the registry of used approvals, which is global to the process, and
-- the audit file; the clock; and the pipeline object of pipeline.py.
use llm_agent_control_plane.Base.{String, List, Option, Result, ok, raised}
use llm_agent_control_plane.Platform.{DateTime}
use llm_agent_control_plane.Approval.{Registry}
use llm_agent_control_plane.Broker.{BrokerOptions}
use llm_agent_control_plane.Agent.{LlmAdapter}
use llm_agent_control_plane.Audit.{AuditEvent, write}

pub record World : Type 0 where
  -- `_USED_APPROVAL_IDS`
  pub used : Registry
  -- The lines of the audit file.
  pub lines : List String

-- What a turn meets: the two readings of the clock, one for the expiry check and one for the time
-- stamp of the audit event; and what OSError says when the event cannot be appended to the audit
-- file.
pub record Clock : Type 0 where
  pub now : DateTime
  pub stamp : String
  pub audit_fault : Option String

-- `ControlPlanePipeline.__init__`; the policy file is read again in every turn.
pub record ControlPlanePipeline : Type 0 where
  pub options : BrokerOptions
  pub llm_adapter : LlmAdapter

-- What a turn leaves: its result, or the exception that it lets through, and the new world.
abbrev pub Outcome {ℓ} : Type ℓ → Type ℓ
Outcome A = Result A × World

-- `self._audit.write(event)`
unfoldable pub log : Clock → AuditEvent → World → Outcome (Unit {0})
log clock event w = logged (write clock.audit_fault clock.stamp event w.lines)
  where
    logged : Result (Unit {0}) × List String → Outcome (Unit {0})
    logged (r, lines) = (r, record w { lines = lines })

-- What follows a write, if it returned.
unfoldable pub after_log {ℓ} : {A : Type ℓ} → Outcome (Unit {0}) → Result A → Outcome A
after_log (ok done, w) result = (result, w)
after_log (raised e, w) result = (raised e, w)

-- Write the event, then return or raise.
unfoldable pub log_then {ℓ} : {A : Type ℓ} → Clock → AuditEvent → World → Result A → Outcome A
unfolding log after_log
log_then clock event w result = after_log (log clock event w) result
