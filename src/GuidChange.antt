-- ===== src/GuidChange.antt =====
-- src/db.rs and src/api.rs: the GUID change that a source URL declares.
pub mod Table
pub mod Record
pub mod Stored
pub mod Followed
pub mod Tests
