-- ===== src/Policy.antt =====
-- src/agent_control_plane/policy_types.py, policy_engine.py and policy_integrity.py: the policy document,
-- its evaluation, its file and the checks of the file. A dict of tools is an association list.
pub mod Types
pub mod Provenance
pub mod Engine
pub mod Laws
pub mod Loading
pub mod Validation
pub mod Hash
pub mod Script
unfoldable pub use Types.*
unfoldable pub use Provenance.*
unfoldable pub use Engine.*
