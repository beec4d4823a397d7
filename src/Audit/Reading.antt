-- ===== src/Audit/Reading.antt =====
-- src/agent_control_plane/audit_logger.py: `AuditLogger.read_events`.
use llm_agent_control_plane.Base.{
  String, not, List, [], ◌∷◌, Result, ok, ◌>>=◌, if◌then◌else◌, truthy, strip, split_lines,
}
use llm_agent_control_plane.Models.{Value}
use llm_agent_control_plane.Host.{Host}

-- The loop over the lines, which passes over blank ones.
unfoldable pub events_of : Host → List String → Result (List Value)
events_of host [] = ok []
events_of host (line ∷ lines) =
    let later = events_of host lines in
    if not (truthy (strip line))
    then later
    else do event ← host.loads line; events ← later; ok (event ∷ events)

-- `read_events` of the logger with this path
unfoldable pub read_events : Host → String → Result (List Value)
unfolding events_of
read_events host path =
    if not (host.is_file path)
    then ok []
    else do text ← host.read_text path; events_of host (split_lines text)
