-- ===== src/Index/Follow/Quiet.antt =====
-- The tests of an ingest are right: where one says that nothing changed, the primary holds the rows of the
-- submission already (src/db.rs).
use stophammer.Common.{true, false, not, some, map}
use stophammer.Common.Sorting.{sort_by}
use stophammer.Index.Rows.{Feed}
use stophammer.Index.Store.{
  rows_of, get_feed_payment_routes_for_feed, get_feed_list_value_raw_for_feed,
  get_feed_remote_items_for_feed,
}
use stophammer.Index.ClaimStore.{
  get_source_contributor_claims_for_feed, get_source_entity_ids_for_feed,
  get_source_entity_links_for_feed, get_source_release_claims_for_feed,
  get_source_item_enclosures_for_feed, get_source_item_transcripts_for_feed,
  get_source_platform_claims_for_feed,
}
use stophammer.Index.Compare.{
  feed_fields_changed, live_events_changed, feed_routes_changed, feed_list_values_changed,
  feed_remote_items_changed,
}
use stophammer.Index.ClaimCompare.{
  source_contributor_claims_changed, source_entity_ids_changed, source_entity_links_changed,
  source_release_claims_changed, source_item_enclosures_changed, source_item_transcripts_changed,
  source_platform_claims_changed,
}
use stophammer.Index.Tracks.{get_feed_by_guid}
use stophammer.Index.Tables.{IndexDb, live_guid, live_key, dedupe_and_sort_live_events}
use stophammer.Index.Events.{Submission}
use stophammer.Common.{◌≡◌}
use stophammer.Index.Compare.{
  feed_fields, live_event_fields, feed_route_fields, list_value_fields, remote_item_fields,
}
use stophammer.Index.ClaimCompare.{
  contributor_claim_fields, entity_id_fields, entity_link_fields, release_claim_fields,
  item_enclosure_fields, item_transcript_fields, platform_claim_fields,
}
use stophammer.Index.Diff.{is_nil}
use stophammer.Index.Follow.FeedRow.{opt_fields, live_view}
use stophammer.Index.Follow.FeedEvents.{EventTests}

module _ (db : IndexDb) (s : Submission) where
  abbrev pub tests_all : EventTests
  tests_all = record {
    feed_test = true;
    feed_routes_test = not (is_nil s.feed_routes);
    list_values_test = not (is_nil s.list_values);
    remote_items_test = not (is_nil s.remote_items);
    contributor_claims_test = not (is_nil s.contributor_claims);
    entity_ids_test = not (is_nil s.entity_ids);
    entity_links_test = not (is_nil s.entity_links);
    release_claims_test = not (is_nil s.release_claims);
    item_enclosures_test = not (is_nil s.item_enclosures);
    item_transcripts_test = not (is_nil s.item_transcripts);
    platform_claims_test = not (is_nil s.platform_claims);
    live_test = not (is_nil (dedupe_and_sort_live_events s.live_events));
  }

  abbrev pub tests_changed : Feed → EventTests
  tests_changed existing = record {
    feed_test = feed_fields_changed existing s.feed;
    feed_routes_test =
        feed_routes_changed (get_feed_payment_routes_for_feed db.feed_routes s.feed.feed_guid)
          s.feed_routes;
    list_values_test =
        feed_list_values_changed (get_feed_list_value_raw_for_feed db.list_values s.feed.feed_guid)
          s.list_values;
    remote_items_test =
        feed_remote_items_changed (get_feed_remote_items_for_feed db.remote_items s.feed.feed_guid)
          s.remote_items;
    contributor_claims_test =
        source_contributor_claims_changed
          (get_source_contributor_claims_for_feed db.contributor_claims s.feed.feed_guid)
          s.contributor_claims;
    entity_ids_test =
        source_entity_ids_changed (get_source_entity_ids_for_feed db.entity_ids s.feed.feed_guid)
          s.entity_ids;
    entity_links_test =
        source_entity_links_changed
          (get_source_entity_links_for_feed db.entity_links s.feed.feed_guid) s.entity_links;
    release_claims_test =
        source_release_claims_changed
          (get_source_release_claims_for_feed db.release_claims s.feed.feed_guid) s.release_claims;
    item_enclosures_test =
        source_item_enclosures_changed
          (get_source_item_enclosures_for_feed db.item_enclosures s.feed.feed_guid)
          s.item_enclosures;
    item_transcripts_test =
        source_item_transcripts_changed
          (get_source_item_transcripts_for_feed db.item_transcripts s.feed.feed_guid)
          s.item_transcripts;
    platform_claims_test =
        source_platform_claims_changed
          (get_source_platform_claims_for_feed db.platform_claims s.feed.feed_guid)
          s.platform_claims;
    live_test =
        live_events_changed (sort_by live_key (rows_of live_guid s.feed.feed_guid db.live_events))
          (dedupe_and_sort_live_events s.live_events);
  }

  pub record IsQuiet (c : EventTests) : Type 0 where
    pub feed_quiet :
        c.feed_test ≡ false
        → opt_fields feed_fields (get_feed_by_guid db.feeds s.feed.feed_guid)
          ≡ some (feed_fields s.feed)
    pub feed_routes_quiet :
        c.feed_routes_test ≡ false
        → map feed_route_fields (get_feed_payment_routes_for_feed db.feed_routes s.feed.feed_guid)
          ≡ map feed_route_fields s.feed_routes
    pub list_values_quiet :
        c.list_values_test ≡ false
        → map list_value_fields (get_feed_list_value_raw_for_feed db.list_values s.feed.feed_guid)
          ≡ map list_value_fields s.list_values
    pub remote_items_quiet :
        c.remote_items_test ≡ false
        → map remote_item_fields (get_feed_remote_items_for_feed db.remote_items s.feed.feed_guid)
          ≡ map remote_item_fields s.remote_items
    pub contributor_claims_quiet :
        c.contributor_claims_test ≡ false
        → map contributor_claim_fields
            (get_source_contributor_claims_for_feed db.contributor_claims s.feed.feed_guid)
          ≡ map contributor_claim_fields s.contributor_claims
    pub entity_ids_quiet :
        c.entity_ids_test ≡ false
        → map entity_id_fields (get_source_entity_ids_for_feed db.entity_ids s.feed.feed_guid)
          ≡ map entity_id_fields s.entity_ids
    pub entity_links_quiet :
        c.entity_links_test ≡ false
        → map entity_link_fields (get_source_entity_links_for_feed db.entity_links s.feed.feed_guid)
          ≡ map entity_link_fields s.entity_links
    pub release_claims_quiet :
        c.release_claims_test ≡ false
        → map release_claim_fields
            (get_source_release_claims_for_feed db.release_claims s.feed.feed_guid)
          ≡ map release_claim_fields s.release_claims
    pub item_enclosures_quiet :
        c.item_enclosures_test ≡ false
        → map item_enclosure_fields
            (get_source_item_enclosures_for_feed db.item_enclosures s.feed.feed_guid)
          ≡ map item_enclosure_fields s.item_enclosures
    pub item_transcripts_quiet :
        c.item_transcripts_test ≡ false
        → map item_transcript_fields
            (get_source_item_transcripts_for_feed db.item_transcripts s.feed.feed_guid)
          ≡ map item_transcript_fields s.item_transcripts
    pub platform_claims_quiet :
        c.platform_claims_test ≡ false
        → map platform_claim_fields
            (get_source_platform_claims_for_feed db.platform_claims s.feed.feed_guid)
          ≡ map platform_claim_fields s.platform_claims
    pub live_quiet :
        c.live_test ≡ false
        → live_view db.live_events s.feed.feed_guid
          ≡ map live_event_fields (dedupe_and_sort_live_events s.live_events)
