-- ===== src/Agent.antt =====
-- src/agent_control_plane/agent_core.py, prompt.py and llm_adapter.py: the untrusted side.
pub mod Prompt
pub mod Scenarios
pub mod Core
pub mod Adapter
unfoldable pub use Prompt.*
unfoldable pub use Core.*
unfoldable pub use Adapter.*
