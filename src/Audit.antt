-- ===== src/Audit.antt =====
-- src/agent_control_plane/audit_logger.py and observability.py.
pub mod Event
pub mod Redaction
pub mod Logger
pub mod Reading
pub mod Observability
pub mod Correlation
unfoldable pub use Event.*
unfoldable pub use Redaction.*
unfoldable pub use Logger.*
unfoldable pub use Observability.*
