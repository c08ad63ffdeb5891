-- ===== src/Lib.antt =====
-- Stophammer is a node of an open music index: crawlers send it feeds, it checks and stores them, signs
-- one event for each change and replicates the events to the other nodes. This library models the logic
-- of the node and proves what makes each part correct.
--
-- The parts and how they interact. A request to ingest a feed runs the verifier chain (Verify); its URL
-- may be blocked (Blocks), may be a copy of a record that another URL holds (Copies), or may move the
-- record (Moves), or may change the GUID of the feed (GuidChange); the live items of the feed are chosen by
-- Live, and its rows are compared with the stored ones and written (Index), and scored (Quality). Each change
-- becomes an event of the log (Sync), which the node pushes to its peers (Peers) and shows to browsers (Sse).
-- Other nodes poll the log and apply its events (Sync) to their tables (Dispatch). Every fetch of a URL that a
-- stranger names goes through FetchGuard; so does the URL of a node that registers as a peer.
--
-- The files.
--   Common: names of the standard library, integers of 64 bits with wrap-around and saturation
--     (Common.Int), texts (Common.Text), tables with a key (Common.Keyed), lists (Common.Lists),
--     the values and the order of SQLite's cells (Common.Cells), sorting and dropping of rows (Common.Sorting).
--   FetchGuard (src/fetch_guard.rs): `is_public_ip` and its ranges on octets and segments, the URL
--     checks, and `fetch_with_pinned_redirects`, whose state is the list of the requests made. The URL
--     parser, DNS, the HTTP client and the clock are the fields of an interface.
--   Live (src/live.rs): `select_live_items` in its four steps, `in_now_view` and `in_upcoming_view`.
--   Verify (src/verify.rs, src/verifiers/, src/medium.rs): each check is a function from the context to a
--     `VerifyResult`; the chain is a list of named checks. UUID parsing and SHA-256 are parameters.
--   Moves (src/db.rs, and `move_target` of src/api.rs): the left URLs, the state of the moves of a record
--     and the decision. The state is the record `MoveDb` of the tables that a move writes.
--   Sync (src/db.rs, src/apply.rs, src/community.rs, src/api.rs, src/sync.rs): the log is the list of the
--     event rows, `NodeDb` adds the cursors and the tables behind the payloads, which are the interface
--     `Writer`. A transaction is a function that returns the new state or, where it fails, the old one.
--   Peers (src/db.rs, src/api.rs): the peer table, the push cache, one push with its attempts, and
--     `handle_sync_register`.
--   Sse (src/api.rs): the registry of channels and replay buffers, with its reachable states as a relation.
--   Blocks (src/db.rs, src/model.rs, src/blocks.rs): the table of blocked GUIDs and URLs.
--   Copies (src/db.rs, src/api.rs): the copies of a feed and `record_feed_copy_for_ingest`.
--   GuidChange (src/db.rs, src/api.rs, src/apply.rs): the pending and decided changes of a feed's GUID, as a
--     table with a key, the requests that write it and the arms of a replica.
--   Index (src/model.rs, src/db.rs, src/apply.rs): the rows of a feed are records (Index.Rows, Index.Claims,
--     Index.Splits) and the tables lists of rows in `IndexDb`. Index.Compare and Index.ClaimCompare hold the
--     `.._changed` functions: the fields that each compares, as a list of cells. Index.Store,
--     Index.ClaimStore, Index.Tracks and Index.Tables hold DELETE and INSERT and the queries with their ORDER
--     BY. Index.Diff is `build_diff_events`, Index.Ingest the row writes of `ingest_transaction`, Index.Apply
--     the arms of `apply_single_event_inner`. Index.Follow proves what a replica has in common with the
--     primary.
--   Dispatch (src/apply.rs, src/event.rs, src/db.rs): the match of `apply_single_event_inner` over the payload
--     types, which joins the arms of Index, Blocks, Copies and GuidChange as the `Writer` of Sync, and the
--     table of URL observations. Dispatch.Follows takes a batch of events from the ingest to the tables of
--     another node.
--   Quality (src/quality.rs): the scores of a feed and of a track on the tables of Index, each as the sum of
--     points whose tests hold, and the table of the scores.
--
-- Bounds and fuel. Times and sequence numbers are integers; the arithmetic that the code does on i64 is
-- written with its wrap-around or its saturation. The counts are natural numbers. The redirect loop of a
-- fetch runs on the hops that are left, five at most, as the code counts them; the attempts of a push run on
-- the three that the code allows; the drain of the poll loop runs on the pages that are left, as
-- MAX_DRAIN_PAGES counts them. The client that reads all pages of the log runs on fuel, and the theorem on it
-- gives the fuel that is enough. All other loops are structural recursion on a list.
--
-- Not modelled. SQL statements are taken to do what their text says, and outside Sync to succeed; the HTTP
-- layer, JSON, the signing keys, TLS, the waits and the parallel tasks are left out, as are the query and
-- search handlers, which read rows into JSON. The rows of Index leave out the `id` that SQLite gives, the
-- columns that are computed from others and the search index, and the transaction does not store the scores
-- of Quality; an f64 is its bit pattern; the stale tracks of a feed are removed in the order of the table,
-- where the code takes them from a hash set; the live events of a feed are read sorted by GUID, as the
-- comparison sorts them after the query. Messages that the code only prints or returns are constructors or
-- left out.
pub mod Blocks
pub mod Common
pub mod Copies
pub mod Dispatch
pub mod FetchGuard
pub mod GuidChange
pub mod Index
pub mod Live
pub mod Moves
pub mod Peers
pub mod Quality
pub mod Sse
pub mod Sync
pub mod Verify
