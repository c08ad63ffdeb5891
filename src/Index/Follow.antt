-- ===== src/Index/Follow.antt =====
-- That a replica which applies the events of an ingest follows the primary (src/db.rs, src/apply.rs).
pub mod FeedLists
pub mod ClaimLists
pub mod ItemLists
pub mod FeedRow
pub mod TrackRows
pub mod OneTrack
pub mod AllTracks
pub mod Agree
pub mod Pushed
pub mod FeedEvents
pub mod Unmoved
pub mod Quiet
pub mod Sound
pub mod FeedTables
pub mod Cellwise
pub mod SharedRows
pub mod SharedClaims
pub mod SameRows
pub mod Compared
pub mod Transaction
