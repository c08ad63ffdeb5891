-- ===== src/Quality.antt =====
-- src/quality.rs: how complete the metadata of a feed or a track is, as a score.
pub mod Score
pub mod Bounds
pub mod Tests
