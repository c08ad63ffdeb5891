-- ===== src/Live.antt =====
-- src/live.rs: the rules for a live item.
pub mod Items
pub mod Window
pub mod Counting
pub mod Selection
pub mod Views
pub mod Tests
