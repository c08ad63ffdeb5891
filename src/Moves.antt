-- ===== src/Moves.antt =====
-- src/db.rs and src/api.rs: the class of a submission, the moves of a record between URLs and the wait
-- between two returns.
pub mod State
pub mod Decide
pub mod Cooldown
pub mod Justified
pub mod History
pub mod Tests
