-- ===== src/Tests.antt =====
-- The theorems at concrete inputs, and test runs of the definitions.
mod Data
mod Ops
mod Engine
mod Image
mod Pool
mod Accept
mod Cjs
mod Server
mod Process
mod Source
mod Sandbox
