-- ===== src/Copies.antt =====
-- src/db.rs and src/api.rs: the copies of a feed that other URLs serve.
pub mod Table
pub mod Record
pub mod Limit
pub mod Settled
pub mod Tests
