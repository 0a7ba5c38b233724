-- ===== src/Thread.antt =====
-- The interaction contract of packages/thread: src/protocol.ts, and src/index.ts over the Chronicle.
mod Protocol
mod Schema
mod Build
mod Store
mod Summary
pub mod Pages
pub mod Wire
pub mod Registering
pub mod Building
pub mod Roundtrip
pub mod Paging
pub mod Described
pub mod Listed
unfoldable pub use Protocol.*
unfoldable pub use Schema.*
unfoldable pub use Build.*
unfoldable pub use Store.*
unfoldable pub use Summary.*
