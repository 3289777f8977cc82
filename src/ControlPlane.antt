-- ===== src/ControlPlane.antt =====
-- internal/controlplane: intents, their arbitration, and overrides.
pub mod Types
pub mod Intent
pub mod Canonical
pub mod Arbiter
pub mod Override
mod Examples
