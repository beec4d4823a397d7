-- ===== src/Approval.antt =====
-- src/agent_control_plane/approval_tokens.py and approval_gate.py.
pub mod Fingerprint
pub mod Tokens
pub mod Gate
pub mod Laws
pub mod GateLaws
pub mod Minting
pub mod Reordering
unfoldable pub use Fingerprint.*
unfoldable pub use Tokens.*
unfoldable pub use Gate.*
