-- ===== src/Index/Follow/FeedEvents.antt =====
-- The events on the rows of the feed itself, as a list with one test for each (src/db.rs), and what a
-- replica makes of them (src/apply.rs).
use stophammer.Common.{Bool, List, ◌++◌, String, if◌then◌else◌}
use stophammer.Common.Int.{ℤ}
use stophammer.Index.Store.{
  without, replace_feed_payment_routes, replace_feed_list_value_raw, replace_feed_remote_items_raw,
}
use stophammer.Index.ClaimStore.{
  replace_source_contributor_claims_for_feed, replace_source_entity_ids_for_feed,
  replace_source_entity_links_for_feed, replace_source_release_claims_for_feed,
  replace_source_item_enclosures_for_feed, replace_source_item_transcripts_for_feed,
  replace_source_platform_claims_for_feed,
}
use stophammer.Index.Tracks.{upsert_feed}
use stophammer.Index.Tables.{IndexDb, live_guid, dedupe_live_events, dedupe_and_sort_live_events}
use stophammer.Index.Events.{
  EventRow, Submission, build_feed_upserted_event, build_feed_routes_event,
  build_feed_list_value_event, build_feed_remote_items_event, build_source_contributor_claims_event,
  build_source_entity_ids_event, build_source_entity_links_event, build_source_release_claims_event,
  build_source_item_enclosures_event, build_source_item_transcripts_event,
  build_source_platform_claims_event, build_live_events_event,
}
use stophammer.Common.{◌≡◌, ◌∙◌}
use stophammer.Index.Diff.{push_if}
use stophammer.Index.Apply.{apply_rows}
use stophammer.Index.Follow.Pushed.{
  feed-pushed, feed_route-pushed, list_value-pushed, remote_item-pushed, contributor_claim-pushed,
  entity_id-pushed, entity_link-pushed, release_claim-pushed, item_enclosure-pushed,
  item_transcript-pushed, platform_claim-pushed, live-pushed,
}

-- Which of the events there are.
pub record EventTests : Type 0 where
  pub feed_test : Bool
  pub feed_routes_test : Bool
  pub list_values_test : Bool
  pub remote_items_test : Bool
  pub contributor_claims_test : Bool
  pub entity_ids_test : Bool
  pub entity_links_test : Bool
  pub release_claims_test : Bool
  pub item_enclosures_test : Bool
  pub item_transcripts_test : Bool
  pub platform_claims_test : Bool
  pub live_test : Bool

module _ (now : ℤ) (warnings : List String) (s : Submission) where
  -- The events in the order of the code, `tail` after them.
  abbrev pub feed_events : EventTests → List EventRow → List EventRow
  feed_events c tail =
      push_if c.feed_test (build_feed_upserted_event now warnings s.feed)
      ++ (push_if c.feed_routes_test (build_feed_routes_event now warnings s.feed s.feed_routes)
          ++ (push_if c.list_values_test
                (build_feed_list_value_event now warnings s.feed s.list_values)
              ++ (push_if c.remote_items_test
                    (build_feed_remote_items_event now warnings s.feed s.remote_items)
                  ++ (push_if c.contributor_claims_test (
                        build_source_contributor_claims_event now warnings s.feed
                          s.contributor_claims)
                      ++ (push_if c.entity_ids_test
                            (build_source_entity_ids_event now warnings s.feed s.entity_ids)
                          ++ (push_if c.entity_links_test
                                (build_source_entity_links_event now warnings s.feed s.entity_links)
                              ++ (push_if c.release_claims_test (
                                    build_source_release_claims_event now warnings s.feed
                                      s.release_claims)
                                  ++ (push_if c.item_enclosures_test (
                                        build_source_item_enclosures_event now warnings s.feed
                                          s.item_enclosures)
                                      ++ (push_if c.item_transcripts_test (
                                            build_source_item_transcripts_event now warnings s.feed
                                              s.item_transcripts)
                                          ++ (push_if c.platform_claims_test (
                                                build_source_platform_claims_event now warnings
                                                  s.feed s.platform_claims)
                                              ++ (push_if c.live_test (
                                                    build_live_events_event now warnings s.feed
                                                      (dedupe_and_sort_live_events s.live_events))
                                                  ++ tail)))))))))))

  abbrev pub after_feed_events : EventTests → IndexDb → IndexDb
  after_feed_events c r = record r {
    feeds = if c.feed_test then upsert_feed r.feeds s.feed else r.feeds;
    feed_routes =
        if c.feed_routes_test
        then replace_feed_payment_routes r.feed_routes s.feed.feed_guid s.feed_routes
        else r.feed_routes;
    list_values =
        if c.list_values_test
        then replace_feed_list_value_raw r.list_values s.feed.feed_guid s.list_values
        else r.list_values;
    remote_items =
        if c.remote_items_test
        then replace_feed_remote_items_raw r.remote_items s.feed.feed_guid s.remote_items
        else r.remote_items;
    contributor_claims =
        if c.contributor_claims_test
        then replace_source_contributor_claims_for_feed r.contributor_claims s.feed.feed_guid
            s.contributor_claims
        else r.contributor_claims;
    entity_ids =
        if c.entity_ids_test
        then replace_source_entity_ids_for_feed r.entity_ids s.feed.feed_guid s.entity_ids
        else r.entity_ids;
    entity_links =
        if c.entity_links_test
        then replace_source_entity_links_for_feed r.entity_links s.feed.feed_guid s.entity_links
        else r.entity_links;
    release_claims =
        if c.release_claims_test
        then replace_source_release_claims_for_feed r.release_claims s.feed.feed_guid
            s.release_claims
        else r.release_claims;
    item_enclosures =
        if c.item_enclosures_test
        then replace_source_item_enclosures_for_feed r.item_enclosures s.feed.feed_guid
            s.item_enclosures
        else r.item_enclosures;
    item_transcripts =
        if c.item_transcripts_test
        then replace_source_item_transcripts_for_feed r.item_transcripts s.feed.feed_guid
            s.item_transcripts
        else r.item_transcripts;
    platform_claims =
        if c.platform_claims_test
        then replace_source_platform_claims_for_feed r.platform_claims s.feed.feed_guid
            s.platform_claims
        else r.platform_claims;
    live_events =
        if c.live_test
        then without live_guid s.feed.feed_guid r.live_events
          ++ dedupe_live_events (dedupe_and_sort_live_events s.live_events)
        else r.live_events;
  }

  pub apply_rows-feed_events :
      (c : EventTests) (r : IndexDb) (tail : List EventRow)
      → apply_rows r (feed_events c tail) ≡ apply_rows (after_feed_events c r) tail
  apply_rows-feed_events c r tail =
      feed-pushed now warnings s _ c.feed_test _
      ∙ feed_route-pushed now warnings s _ c.feed_routes_test _
      ∙ list_value-pushed now warnings s _ c.list_values_test _
      ∙ remote_item-pushed now warnings s _ c.remote_items_test _
      ∙ contributor_claim-pushed now warnings s _ c.contributor_claims_test _
      ∙ entity_id-pushed now warnings s _ c.entity_ids_test _
      ∙ entity_link-pushed now warnings s _ c.entity_links_test _
      ∙ release_claim-pushed now warnings s _ c.release_claims_test _
      ∙ item_enclosure-pushed now warnings s _ c.item_enclosures_test _
      ∙ item_transcript-pushed now warnings s _ c.item_transcripts_test _
      ∙ platform_claim-pushed now warnings s _ c.platform_claims_test _
      ∙ live-pushed now warnings s _ c.live_test _
