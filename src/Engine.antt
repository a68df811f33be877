-- ===== src/Engine.antt =====
-- The engine around one V8 isolate (crates/nexide/src/engine).
pub mod Bridge
pub mod HandleTable
