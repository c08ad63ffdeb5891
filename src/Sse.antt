-- ===== src/Sse.antt =====
-- `SseRegistry` of src/api.rs: the channels, the replay buffers and the count of connections.
pub mod Registry
pub mod Bounds
pub mod Replay
pub mod Tests
