-- ===== src/Chronicle.antt =====
-- The Chronicle: packages/knowledge/src/envelope.ts and registry.ts, and the SQLite store of
-- adapters/storage/sqlite/src/sqlite-chronicle-store.ts.
mod Envelope
mod Validation
mod Store
pub mod Rows
pub mod Appending
pub mod Outcome
pub mod Retry
pub mod Reading
unfoldable pub use Envelope.*
unfoldable pub use Validation.*
unfoldable pub use Store.*
