-- ===== src/Index/Apply.antt =====
-- The arms of `apply_single_event_inner` (src/apply.rs) for the rows of a feed.
use stophammer.Common.{Option, none, some, List, [], ◌∷◌, ◌++◌, String, is_some, if◌then◌else◌}
use stophammer.Index.Rows.{PaymentRoute, TrackRemoteItemRaw}
use stophammer.Index.Store.{
  without, replace_feed_payment_routes, replace_feed_list_value_raw, replace_feed_remote_items_raw,
}
use stophammer.Index.ClaimStore.{
  replace_source_contributor_claims_for_feed, replace_source_entity_ids_for_feed,
  replace_source_entity_links_for_feed, replace_source_release_claims_for_feed,
  replace_source_item_enclosures_for_feed, replace_source_item_transcripts_for_feed,
  replace_source_platform_claims_for_feed,
}
use stophammer.Index.Splits.{replace_value_time_splits_for_feed_track}
use stophammer.Index.Tracks.{
  get_feed_by_guid, upsert_feed, get_track_for_feed, upsert_track,
  replace_payment_routes_for_feed_track, replace_payment_routes,
  replace_track_remote_items_raw_for_feed_track, replace_track_remote_items_raw,
}
use stophammer.Index.Tables.{
  IndexDb, live_guid, dedupe_live_events, delete_track_sql, delete_feed_sql,
}
use stophammer.Index.Events.{
  feed_routes_replaced, feed_list_value_replaced, feed_remote_items_replaced,
  source_contributor_claims_replaced, source_entity_ids_replaced, source_entity_links_replaced,
  source_release_claims_replaced, source_item_enclosures_replaced, source_item_transcripts_replaced,
  source_platform_claims_replaced, live_events_replaced, RowPayload, feed_upserted, feed_retired,
  track_upserted, track_removed, routes_replaced, track_remote_items_replaced, EventRow,
}

abbrev pub apply_track_items : IndexDb → Option String → String → List TrackRemoteItemRaw → IndexDb
apply_track_items db none t items = record db {
  track_items = replace_track_remote_items_raw db.track_items t items;
}
apply_track_items db (some f) t items = record db {
  track_items = replace_track_remote_items_raw_for_feed_track db.track_items f t items;
}

abbrev pub apply_routes : IndexDb → Option String → String → List PaymentRoute → IndexDb
apply_routes db none t routes = record db {
  payment_routes = replace_payment_routes db.payment_routes t routes;
}
apply_routes db (some f) t routes = record db {
  payment_routes = replace_payment_routes_for_feed_track db.payment_routes f t routes;
}

unfoldable pub apply_row_payload : IndexDb → RowPayload → IndexDb
unfolding get_feed_by_guid upsert_feed get_track_for_feed upsert_track delete_track_sql
    delete_feed_sql replace_payment_routes_for_feed_track replace_payment_routes
    replace_value_time_splits_for_feed_track replace_track_remote_items_raw_for_feed_track
    replace_track_remote_items_raw without dedupe_live_events replace_feed_payment_routes
    replace_feed_list_value_raw replace_feed_remote_items_raw
    replace_source_contributor_claims_for_feed replace_source_entity_ids_for_feed
    replace_source_entity_links_for_feed replace_source_release_claims_for_feed
    replace_source_item_enclosures_for_feed replace_source_item_transcripts_for_feed
    replace_source_platform_claims_for_feed
apply_row_payload db (feed_upserted feed) = record db { feeds = upsert_feed db.feeds feed }
apply_row_payload db (feed_retired guid) =
    if is_some (get_feed_by_guid db.feeds guid) then delete_feed_sql db guid else db
apply_row_payload db (track_upserted track routes splits) = record db {
  tracks = upsert_track db.tracks track;
  payment_routes =
      replace_payment_routes_for_feed_track db.payment_routes track.feed_guid track.track_guid
        routes;
  splits =
      replace_value_time_splits_for_feed_track db.splits track.feed_guid track.track_guid splits;
}
apply_row_payload db (track_removed t f) =
    if is_some (get_track_for_feed db.tracks f t) then delete_track_sql db f t else db
apply_row_payload db (routes_replaced f t routes) = apply_routes db f t routes
apply_row_payload db (track_remote_items_replaced f t items) = apply_track_items db f t items
apply_row_payload db (live_events_replaced f rows) = record db {
  live_events = without live_guid f db.live_events ++ dedupe_live_events rows;
}
apply_row_payload db (feed_routes_replaced f rows) = record db {
  feed_routes = replace_feed_payment_routes db.feed_routes f rows;
}
apply_row_payload db (feed_list_value_replaced f rows) = record db {
  list_values = replace_feed_list_value_raw db.list_values f rows;
}
apply_row_payload db (feed_remote_items_replaced f rows) = record db {
  remote_items = replace_feed_remote_items_raw db.remote_items f rows;
}
apply_row_payload db (source_contributor_claims_replaced f rows) = record db {
  contributor_claims = replace_source_contributor_claims_for_feed db.contributor_claims f rows;
}
apply_row_payload db (source_entity_ids_replaced f rows) = record db {
  entity_ids = replace_source_entity_ids_for_feed db.entity_ids f rows;
}
apply_row_payload db (source_entity_links_replaced f rows) = record db {
  entity_links = replace_source_entity_links_for_feed db.entity_links f rows;
}
apply_row_payload db (source_release_claims_replaced f rows) = record db {
  release_claims = replace_source_release_claims_for_feed db.release_claims f rows;
}
apply_row_payload db (source_item_enclosures_replaced f rows) = record db {
  item_enclosures = replace_source_item_enclosures_for_feed db.item_enclosures f rows;
}
apply_row_payload db (source_item_transcripts_replaced f rows) = record db {
  item_transcripts = replace_source_item_transcripts_for_feed db.item_transcripts f rows;
}
apply_row_payload db (source_platform_claims_replaced f rows) = record db {
  platform_claims = replace_source_platform_claims_for_feed db.platform_claims f rows;
}

unfoldable pub apply_rows : IndexDb → List EventRow → IndexDb
unfolding apply_row_payload
apply_rows db [] = db
apply_rows db (e ∷ rest) = apply_rows (apply_row_payload db e.payload) rest
