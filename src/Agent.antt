-- ===== src/Agent.antt =====
-- packages/runtime/src/agent-loop.ts: the message history of a turn, how it is recorded and how it is
-- rebuilt after a crash. The hash of node's `crypto` is the parameter `sha256`.
mod History
mod Rebuild
pub mod Live
pub mod Recorded
pub mod Scanning
pub mod Recovery
pub mod Uncommitted
pub mod Approval
pub mod Waiting
unfoldable pub use History.*
unfoldable pub use Rebuild.*
