-- ===== src/Index/Follow/Pushed.antt =====
-- One event on the rows of a feed, pushed where its test holds, and the table that a replica writes for it
-- (src/db.rs, src/apply.rs).
use stophammer.Common.{Bool, true, false, List, ◌++◌, String, if◌then◌else◌}
use stophammer.Common.Int.{ℤ}
use stophammer.Index.Store.{
  without, replace_feed_payment_routes, replace_feed_list_value_raw, replace_feed_remote_items_raw,
}
use stophammer.Index.ClaimStore.{
  replace_source_contributor_claims_for_feed, replace_source_entity_ids_for_feed,
  replace_source_entity_links_for_feed, replace_source_release_claims_for_feed,
  replace_source_item_enclosures_for_feed, replace_source_item_transcripts_for_feed,
  replace_source_platform_claims_for_feed,
}
use stophammer.Index.Tracks.{upsert_feed}
use stophammer.Index.Tables.{IndexDb, live_guid, dedupe_live_events, dedupe_and_sort_live_events}
use stophammer.Index.Events.{
  EventRow, Submission, build_feed_upserted_event, build_feed_routes_event,
  build_feed_list_value_event, build_feed_remote_items_event, build_source_contributor_claims_event,
  build_source_entity_ids_event, build_source_entity_links_event, build_source_release_claims_event,
  build_source_item_enclosures_event, build_source_item_transcripts_event,
  build_source_platform_claims_event, build_live_events_event,
}
use stophammer.Common.{◌≡◌, refl}
use stophammer.Index.Diff.{push_if}
use stophammer.Index.Apply.{apply_row_payload, apply_rows}

module _ (now : ℤ) (warnings : List String) (s : Submission) where
  pub feed-pushed :
      (r : IndexDb) (test : Bool) (rest : List EventRow)
      → apply_rows r (push_if test (build_feed_upserted_event now warnings s.feed) ++ rest)
        ≡ apply_rows
            (record r { feeds = if test then upsert_feed r.feeds s.feed else r.feeds })
            rest
  unfolding apply_rows apply_row_payload
  feed-pushed r true rest = refl
  feed-pushed r false rest = refl

  pub feed_route-pushed :
      (r : IndexDb) (test : Bool) (rest : List EventRow)
      → apply_rows r
          (push_if test (build_feed_routes_event now warnings s.feed s.feed_routes) ++ rest)
        ≡ apply_rows
            (record r {
              feed_routes =
                  if test
                  then replace_feed_payment_routes r.feed_routes s.feed.feed_guid s.feed_routes
                  else r.feed_routes;
            })
            rest
  unfolding apply_rows apply_row_payload
  feed_route-pushed r true rest = refl
  feed_route-pushed r false rest = refl

  pub list_value-pushed :
      (r : IndexDb) (test : Bool) (rest : List EventRow)
      → apply_rows r
          (push_if test (build_feed_list_value_event now warnings s.feed s.list_values) ++ rest)
        ≡ apply_rows
            (record r {
              list_values =
                  if test
                  then replace_feed_list_value_raw r.list_values s.feed.feed_guid s.list_values
                  else r.list_values;
            })
            rest
  unfolding apply_rows apply_row_payload
  list_value-pushed r true rest = refl
  list_value-pushed r false rest = refl

  pub remote_item-pushed :
      (r : IndexDb) (test : Bool) (rest : List EventRow)
      → apply_rows r
          (push_if test (build_feed_remote_items_event now warnings s.feed s.remote_items) ++ rest)
        ≡ apply_rows
            (record r {
              remote_items =
                  if test
                  then replace_feed_remote_items_raw r.remote_items s.feed.feed_guid s.remote_items
                  else r.remote_items;
            })
            rest
  unfolding apply_rows apply_row_payload
  remote_item-pushed r true rest = refl
  remote_item-pushed r false rest = refl

  pub contributor_claim-pushed :
      (r : IndexDb) (test : Bool) (rest : List EventRow)
      → apply_rows r (
          push_if test
            (build_source_contributor_claims_event now warnings s.feed s.contributor_claims)
          ++ rest)
        ≡ apply_rows
            (record r {
              contributor_claims =
                  if test
                  then replace_source_contributor_claims_for_feed r.contributor_claims
                      s.feed.feed_guid s.contributor_claims
                  else r.contributor_claims;
            })
            rest
  unfolding apply_rows apply_row_payload
  contributor_claim-pushed r true rest = refl
  contributor_claim-pushed r false rest = refl

  pub entity_id-pushed :
      (r : IndexDb) (test : Bool) (rest : List EventRow)
      → apply_rows r
          (push_if test (build_source_entity_ids_event now warnings s.feed s.entity_ids) ++ rest)
        ≡ apply_rows
            (record r {
              entity_ids =
                  if test
                  then replace_source_entity_ids_for_feed r.entity_ids s.feed.feed_guid s.entity_ids
                  else r.entity_ids;
            })
            rest
  unfolding apply_rows apply_row_payload
  entity_id-pushed r true rest = refl
  entity_id-pushed r false rest = refl

  pub entity_link-pushed :
      (r : IndexDb) (test : Bool) (rest : List EventRow)
      → apply_rows r (
          push_if test (build_source_entity_links_event now warnings s.feed s.entity_links) ++ rest)
        ≡ apply_rows
            (record r {
              entity_links =
                  if test
                  then replace_source_entity_links_for_feed r.entity_links s.feed.feed_guid
                      s.entity_links
                  else r.entity_links;
            })
            rest
  unfolding apply_rows apply_row_payload
  entity_link-pushed r true rest = refl
  entity_link-pushed r false rest = refl

  pub release_claim-pushed :
      (r : IndexDb) (test : Bool) (rest : List EventRow)
      → apply_rows r (
          push_if test (build_source_release_claims_event now warnings s.feed s.release_claims)
          ++ rest)
        ≡ apply_rows
            (record r {
              release_claims =
                  if test
                  then replace_source_release_claims_for_feed r.release_claims s.feed.feed_guid
                      s.release_claims
                  else r.release_claims;
            })
            rest
  unfolding apply_rows apply_row_payload
  release_claim-pushed r true rest = refl
  release_claim-pushed r false rest = refl

  pub item_enclosure-pushed :
      (r : IndexDb) (test : Bool) (rest : List EventRow)
      → apply_rows r (
          push_if test (build_source_item_enclosures_event now warnings s.feed s.item_enclosures)
          ++ rest)
        ≡ apply_rows
            (record r {
              item_enclosures =
                  if test
                  then replace_source_item_enclosures_for_feed r.item_enclosures s.feed.feed_guid
                      s.item_enclosures
                  else r.item_enclosures;
            })
            rest
  unfolding apply_rows apply_row_payload
  item_enclosure-pushed r true rest = refl
  item_enclosure-pushed r false rest = refl

  pub item_transcript-pushed :
      (r : IndexDb) (test : Bool) (rest : List EventRow)
      → apply_rows r (
          push_if test (build_source_item_transcripts_event now warnings s.feed s.item_transcripts)
          ++ rest)
        ≡ apply_rows
            (record r {
              item_transcripts =
                  if test
                  then replace_source_item_transcripts_for_feed r.item_transcripts s.feed.feed_guid
                      s.item_transcripts
                  else r.item_transcripts;
            })
            rest
  unfolding apply_rows apply_row_payload
  item_transcript-pushed r true rest = refl
  item_transcript-pushed r false rest = refl

  pub platform_claim-pushed :
      (r : IndexDb) (test : Bool) (rest : List EventRow)
      → apply_rows r (
          push_if test (build_source_platform_claims_event now warnings s.feed s.platform_claims)
          ++ rest)
        ≡ apply_rows
            (record r {
              platform_claims =
                  if test
                  then replace_source_platform_claims_for_feed r.platform_claims s.feed.feed_guid
                      s.platform_claims
                  else r.platform_claims;
            })
            rest
  unfolding apply_rows apply_row_payload
  platform_claim-pushed r true rest = refl
  platform_claim-pushed r false rest = refl

  pub live-pushed :
      (r : IndexDb) (test : Bool) (rest : List EventRow)
      → apply_rows r (
          push_if test (
            build_live_events_event now warnings s.feed (dedupe_and_sort_live_events s.live_events))
          ++ rest)
        ≡ apply_rows
            (record r {
              live_events =
                  if test
                  then without live_guid s.feed.feed_guid r.live_events
                    ++ dedupe_live_events (dedupe_and_sort_live_events s.live_events)
                  else r.live_events;
            })
            rest
  unfolding apply_rows apply_row_payload
  live-pushed r true rest = refl
  live-pushed r false rest = refl
