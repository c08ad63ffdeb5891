-- ===== src/Peers.antt =====
-- The peers that a primary pushes to: src/db.rs and the fan-out and registration of src/api.rs.
pub mod State
pub mod Push
pub mod Register
pub mod Cache
pub mod Failures
pub mod Tests
