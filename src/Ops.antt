-- ===== src/Ops.antt =====
-- The per-isolate request machinery of crates/nexide/src/ops.
pub mod Request
pub mod Response
pub mod DispatchTable
pub mod Queue
pub mod Process
pub mod Sandbox
