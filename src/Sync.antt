-- ===== src/Sync.antt =====
-- The replication of the event log: src/db.rs, src/apply.rs, src/community.rs and the sync handlers of
-- src/api.rs.
pub mod Log
pub mod Apply
pub mod Order
pub mod Batch
pub mod Appended
pub mod Serve
pub mod Pages
pub mod Cursor
pub mod Again
pub mod Counts
pub mod Pull
pub mod Trust
pub mod Tests
