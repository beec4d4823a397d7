-- ===== src/Filter.antt =====
-- src/agent_control_plane/output_filter.py: the layered filter of the model's text.
pub mod Types
pub mod Patterns
pub mod Measures
pub mod Detectors
pub mod Context
pub mod Decision
pub mod Secrets
pub mod Severity
unfoldable pub use Types.*
unfoldable pub use Patterns.*
unfoldable pub use Measures.*
unfoldable pub use Detectors.*
unfoldable pub use Context.*
unfoldable pub use Decision.*
