-- ===== src/Health.antt =====
-- internal/health: what the monitors' results say of an account.
pub mod Floats
pub mod Classify
pub mod Policy
pub mod Window
pub mod Quality
pub mod Evaluate
pub mod Settings
pub mod Stage
pub mod Observe
pub mod Score
pub mod Monitor
mod Examples
