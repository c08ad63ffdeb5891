-- ===== src/Verify.antt =====
-- src/verify.rs, src/verifiers and src/medium.rs: the chain of checks that a submission passes.
pub mod Request
pub mod Rules
pub mod Chain
pub mod Run
pub mod Config
pub mod NoChange
pub mod Coverage
pub mod Tests
