-- ===== src/Context.antt =====
-- packages/context: the token budget of a model context, and packages/runtime/src/context-policy.ts.
pub mod Json
pub mod Budget
pub mod Allocation
pub mod Compression
pub mod Manifest
pub mod Rebuilding
pub mod Policy
pub mod Places
pub mod Choice
pub mod Report
pub mod Elision
