-- ===== src/Index/Follow/FeedTables.antt =====
-- The rows of a feed on the primary and on a replica after an ingest (src/db.rs, src/apply.rs).
use stophammer.Common.{List, String}
use stophammer.Common.Int.{ℤ}
use stophammer.Index.Tables.{IndexDb}
use stophammer.Index.Events.{Submission}
use stophammer.Index.Ingest.{write_feed_rows}
use stophammer.Index.Follow.FeedRow.{feed-follows, live-follows}
use stophammer.Index.Follow.FeedLists.{feed_route-follows, list_value-follows, remote_item-follows}
use stophammer.Index.Follow.ClaimLists.{
  contributor_claim-follows, entity_id-follows, entity_link-follows, release_claim-follows,
}
use stophammer.Index.Follow.ItemLists.{
  item_enclosure-follows, item_transcript-follows, platform_claim-follows,
}
use stophammer.Index.Follow.Agree.{FieldsAgree, IsProper}
use stophammer.Index.Follow.FeedEvents.{EventTests, after_feed_events}
use stophammer.Index.Follow.Quiet.{IsQuiet}

module _ (db : IndexDb) (s : Submission) where
  pub feeds-follow :
      (now : ℤ) (warnings : List String) (r : IndexDb) (c : EventTests)
      → IsProper s
      → IsQuiet db s c
      → FieldsAgree db r
      → FieldsAgree (write_feed_rows db s) (after_feed_events now warnings s c r)
  unfolding write_feed_rows
  feeds-follow now warnings r c proper quiet agree =
      let g = s.feed.feed_guid in
      record {
        feeds_agree =
            feed-follows db.feeds r.feeds s.feed c.feed_test quiet.feed_quiet agree.feeds_agree;
        feed_routes_agree =
            feed_route-follows g db.feed_routes r.feed_routes s.feed_routes c.feed_routes_test
              proper.own_feed_routes quiet.feed_routes_quiet agree.feed_routes_agree;
        list_values_agree =
            list_value-follows g db.list_values r.list_values s.list_values c.list_values_test
              proper.own_list_values quiet.list_values_quiet agree.list_values_agree;
        remote_items_agree =
            remote_item-follows g db.remote_items r.remote_items s.remote_items c.remote_items_test
              proper.own_remote_items quiet.remote_items_quiet agree.remote_items_agree;
        contributor_claims_agree =
            contributor_claim-follows g db.contributor_claims r.contributor_claims
              s.contributor_claims c.contributor_claims_test proper.own_contributor_claims
              proper.distinct_contributor_claims quiet.contributor_claims_quiet
              agree.contributor_claims_agree;
        entity_ids_agree =
            entity_id-follows g db.entity_ids r.entity_ids s.entity_ids c.entity_ids_test
              proper.own_entity_ids proper.distinct_entity_ids quiet.entity_ids_quiet
              agree.entity_ids_agree;
        entity_links_agree =
            entity_link-follows g db.entity_links r.entity_links s.entity_links c.entity_links_test
              proper.own_entity_links proper.distinct_entity_links quiet.entity_links_quiet
              agree.entity_links_agree;
        release_claims_agree =
            release_claim-follows g db.release_claims r.release_claims s.release_claims
              c.release_claims_test proper.own_release_claims proper.distinct_release_claims
              quiet.release_claims_quiet agree.release_claims_agree;
        item_enclosures_agree =
            item_enclosure-follows g db.item_enclosures r.item_enclosures s.item_enclosures
              c.item_enclosures_test proper.own_item_enclosures proper.distinct_item_enclosures
              quiet.item_enclosures_quiet agree.item_enclosures_agree;
        item_transcripts_agree =
            item_transcript-follows g db.item_transcripts r.item_transcripts s.item_transcripts
              c.item_transcripts_test proper.own_item_transcripts proper.distinct_item_transcripts
              quiet.item_transcripts_quiet agree.item_transcripts_agree;
        platform_claims_agree =
            platform_claim-follows g db.platform_claims r.platform_claims s.platform_claims
              c.platform_claims_test proper.own_platform_claims quiet.platform_claims_quiet
              agree.platform_claims_agree;
        live_events_agree =
            live-follows g db.live_events r.live_events s.live_events c.live_test
              proper.own_live_events proper.own_sorted_live_events quiet.live_quiet
              agree.live_events_agree;
      }
