-- ===== src/Pool.antt =====
-- crates/nexide/src/pool: the pool of isolate workers and when they are recycled.
pub mod Recycle
pub mod Settings
pub mod Isolates
