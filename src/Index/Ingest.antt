-- ===== src/Index/Ingest.antt =====
-- The row writes of `ingest_transaction` (src/db.rs), and the events of the tracks that it removes.
-- The writes of the move and the signing of the events are in Moves and Sync.
use stophammer.Common.{
  Bool, not, List, [], ◌∷◌, ◌++◌, String, str_eq, any, select, map, is_some, if◌then◌else◌,
}
use stophammer.Index.Rows.{Feed, Track}
use stophammer.Index.Store.{
  rows_of, without, replace_feed_payment_routes, replace_feed_list_value_raw,
  replace_feed_remote_items_raw,
}
use stophammer.Index.ClaimStore.{
  replace_source_contributor_claims_for_feed, replace_source_entity_ids_for_feed,
  replace_source_entity_links_for_feed, replace_source_release_claims_for_feed,
  replace_source_item_enclosures_for_feed, replace_source_item_transcripts_for_feed,
  replace_source_platform_claims_for_feed, dedupe_source_contributor_claims,
  dedupe_source_entity_ids, dedupe_source_entity_links, dedupe_source_release_claims,
  dedupe_source_item_enclosures, dedupe_source_item_transcripts,
}
use stophammer.Index.Splits.{replace_value_time_splits_for_feed_track}
use stophammer.Index.Tracks.{
  upsert_feed, get_track_for_feed, upsert_track, replace_payment_routes_for_feed_track,
  replace_track_remote_items_raw_for_feed_track,
}
use stophammer.Index.Tables.{IndexDb, live_guid, dedupe_live_events, delete_track_sql}
use stophammer.Index.Events.{track_removed, EventRow, TrackIngestBundle, Submission, event_row}

-- The writes of the feed's own rows, the live events included.
unfoldable pub write_feed_rows : IndexDb → Submission → IndexDb
unfolding upsert_feed without dedupe_live_events replace_feed_payment_routes
    replace_feed_list_value_raw replace_feed_remote_items_raw
    replace_source_contributor_claims_for_feed replace_source_entity_ids_for_feed
    replace_source_entity_links_for_feed replace_source_release_claims_for_feed
    replace_source_item_enclosures_for_feed replace_source_item_transcripts_for_feed
    replace_source_platform_claims_for_feed dedupe_source_contributor_claims
    dedupe_source_entity_ids dedupe_source_entity_links dedupe_source_release_claims
    dedupe_source_item_enclosures dedupe_source_item_transcripts
write_feed_rows db s =
    let guid = s.feed.feed_guid in
    record db {
      feeds = upsert_feed db.feeds s.feed;
      live_events = without live_guid guid db.live_events ++ dedupe_live_events s.live_events;
      feed_routes = replace_feed_payment_routes db.feed_routes guid s.feed_routes;
      list_values = replace_feed_list_value_raw db.list_values guid s.list_values;
      remote_items = replace_feed_remote_items_raw db.remote_items guid s.remote_items;
      contributor_claims =
          replace_source_contributor_claims_for_feed db.contributor_claims guid
            (dedupe_source_contributor_claims s.contributor_claims);
      entity_ids =
          replace_source_entity_ids_for_feed db.entity_ids guid
            (dedupe_source_entity_ids s.entity_ids);
      entity_links =
          replace_source_entity_links_for_feed db.entity_links guid
            (dedupe_source_entity_links s.entity_links);
      release_claims =
          replace_source_release_claims_for_feed db.release_claims guid
            (dedupe_source_release_claims s.release_claims);
      item_enclosures =
          replace_source_item_enclosures_for_feed db.item_enclosures guid
            (dedupe_source_item_enclosures s.item_enclosures);
      item_transcripts =
          replace_source_item_transcripts_for_feed db.item_transcripts guid
            (dedupe_source_item_transcripts s.item_transcripts);
      platform_claims =
          replace_source_platform_claims_for_feed db.platform_claims guid s.platform_claims;
    }

abbrev pub write_track : IndexDb → TrackIngestBundle → IndexDb
write_track db b =
    let f = b.track.feed_guid in
    let t = b.track.track_guid in
    record db {
      tracks = upsert_track db.tracks b.track;
      payment_routes = replace_payment_routes_for_feed_track db.payment_routes f t b.routes;
      splits = replace_value_time_splits_for_feed_track db.splits f t b.splits;
      track_items = replace_track_remote_items_raw_for_feed_track db.track_items f t b.remote_items;
    }

unfoldable pub write_tracks : IndexDb → List TrackIngestBundle → IndexDb
unfolding upsert_track replace_payment_routes_for_feed_track
    replace_value_time_splits_for_feed_track replace_track_remote_items_raw_for_feed_track
write_tracks db [] = db
write_tracks db (b ∷ rest) = write_tracks (write_track db b) rest

-- The GUIDs of the feed's tracks before the writes, in the order of the table; the code takes them from a
-- hash set, in any order.
unfoldable pub existing_guids : List Track → String → List String
unfolding rows_of
existing_guids tracks guid = map (λ t. t.track_guid) (rows_of (λ t. t.feed_guid) guid tracks)

abbrev pub is_submitted : List TrackIngestBundle → String → Bool
is_submitted tracks track_guid = any (λ b. str_eq b.track.track_guid track_guid) tracks

unfoldable pub stale_guids : IndexDb → Submission → List String
unfolding existing_guids any select
stale_guids db s =
    select (λ t. not (is_submitted s.tracks t)) (existing_guids db.tracks s.feed.feed_guid)

unfoldable pub remove_tracks : IndexDb → String → List String → IndexDb
unfolding get_track_for_feed delete_track_sql
remove_tracks db guid [] = db
remove_tracks db guid (t ∷ rest) =
    remove_tracks
      (if is_some (get_track_for_feed db.tracks guid t) then delete_track_sql db guid t else db)
      guid rest

abbrev pub removal_event : Feed → String → EventRow
removal_event feed t = event_row feed.updated_at [] (track_removed t feed.feed_guid) t

-- The tables after the transaction, and the events of the removals.
unfoldable pub ingest_transaction : IndexDb → Submission → IndexDb × List EventRow
unfolding write_feed_rows write_tracks stale_guids remove_tracks
ingest_transaction db s = (
  remove_tracks (write_tracks (write_feed_rows db s) s.tracks) s.feed.feed_guid (stale_guids db s),
  map (removal_event s.feed) (stale_guids db s),
)
