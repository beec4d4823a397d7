-- ===== src/Tests.antt =====
-- Runs of the model on the repository's own policy and scenarios, and the theorems at concrete data.
pub mod Fixtures
pub mod Files
pub mod Requests
mod Runs
mod Witnesses
mod TurnWitnesses
mod RefusalWitnesses
mod PolicyWitnesses
mod ApiWitnesses
mod ConfigWitnesses
mod SessionWitnesses
mod DemoWitnesses
