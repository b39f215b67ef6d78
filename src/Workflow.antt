-- ===== src/Workflow.antt =====
-- The storage and computation workflow of crates/runtime/src/workflow.rs: fragments on storage
-- nodes, handoff to a new committee, committee selection, and the event loop.
pub mod Types
pub mod Storage
pub mod Crypto
pub mod Sortition
pub mod Chain
pub mod Runtime
pub mod Tests
