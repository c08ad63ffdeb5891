-- ===== src/Index.antt =====
-- src/db.rs, src/apply.rs and src/model.rs: the rows of a feed, their comparison, the events of an ingest,
-- and their application.
pub mod Rows
pub mod Claims
pub mod Compare
pub mod ClaimCompare
pub mod Store
pub mod ClaimStore
pub mod Splits
pub mod Tracks
pub mod Tables
pub mod Events
pub mod Diff
pub mod Ingest
pub mod Apply
pub mod TableLaws
pub mod Loads
pub mod Follow
pub mod Silent
pub mod Kept
pub mod Sample
pub mod Tests
