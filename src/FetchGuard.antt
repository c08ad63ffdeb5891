-- ===== src/FetchGuard.antt =====
-- src/fetch_guard.rs: the address test, the URL checks and the fetch that pins DNS at each hop.
pub mod Address
pub mod Ranges
pub mod Embedded
pub mod Guard
pub mod Safety
pub mod Redirects
pub mod Hops
pub mod Tests
