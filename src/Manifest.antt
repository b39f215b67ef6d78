-- ===== src/Manifest.antt =====
-- The executor of compiled manifests, crates/runtime/src/manifest.rs.
pub mod Types
pub mod Executor
pub mod Memory
pub mod Plan
pub mod Typing
pub mod Gate
pub mod Plaintext
pub mod Outbox
pub mod Daemon
pub mod Tests
