-- ===== src/Automation.antt =====
-- internal/automation: the barrier between freezes and automated writes.
pub mod Barrier
mod Examples
