-- ===== src/Blocks.antt =====
-- src/db.rs, src/model.rs and src/blocks.rs: the blocked feed GUIDs and URLs.
pub mod Table
pub mod Lookup
pub mod Tests
