-- ===== src/Pipeline.antt =====
-- src/agent_control_plane/pipeline.py: one agent turn, protected and vulnerable.
pub mod Events
pub mod State
pub mod Protected
pub mod Vulnerable
pub mod Logging
pub mod Safety
pub mod Injection
pub mod Leaks
pub mod Harmless
pub mod Registry
pub mod Replay
pub mod Telling
pub mod AuditTrail
pub mod Turn
pub mod Guarded
pub mod Monitor
pub mod Returns
unfoldable pub use Events.*
unfoldable pub use State.*
unfoldable pub use Protected.*
unfoldable pub use Vulnerable.*
unfoldable pub use Turn.*
