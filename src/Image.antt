-- ===== src/Image.antt =====
-- crates/nexide/src/image: the image optimizer of the `/_next/image` route.
pub mod Memory
pub mod Glob
pub mod Cache
pub mod Config
pub mod Params
pub mod Fetch
pub mod Patterns
pub mod Source
pub mod Detect
pub mod Headers
pub mod Output
