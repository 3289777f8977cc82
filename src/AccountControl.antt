-- ===== src/AccountControl.antt =====
-- internal/accountcontrol: the service that applies intents to accounts.
pub mod Types
pub mod Records
pub mod Projection
pub mod Program
pub mod Guard
pub mod Overrides
pub mod Decision
pub mod Journal
pub mod Service
pub mod Carry
pub mod Submit
pub mod Queue
pub mod Closing
pub mod Recovery
pub mod Locks
mod Examples
