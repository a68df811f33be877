-- ===== src/Server.antt =====
-- The HTTP server in front of the isolates (crates/nexide/src/server).
pub mod Accept
pub mod Config
pub mod Prerender
