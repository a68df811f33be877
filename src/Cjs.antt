-- ===== src/Cjs.antt =====
-- The CommonJS loader (crates/nexide/src/engine/cjs) and the ops through which scripts use it.
pub mod Paths
pub mod Json
pub mod Exports
pub mod Registry
pub mod Resolver
pub mod Loader
