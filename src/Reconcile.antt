-- ===== src/Reconcile.antt =====
-- internal/reconcile: what schedules the reconcile passes.
pub mod Coordinator
pub mod Matcher
mod Examples
