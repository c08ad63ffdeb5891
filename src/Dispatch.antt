-- ===== src/Dispatch.antt =====
-- src/apply.rs: the match over the payload types, and what a batch of new events does to the tables.
pub mod Observations
pub mod Observed
pub mod Payload
pub mod Fresh
pub mod Follows
pub mod Tests
