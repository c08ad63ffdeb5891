-- ===== src/Index/Follow/Agree.antt =====
-- When a replica agrees with the primary on a feed, and what the theorems ask of a submission and of the
-- tables of the primary (src/schema.sql, src/db.rs, src/api.rs).
use stophammer.Common.{none, [], String, map}
use stophammer.Common.Sorting.{sort_by}
use stophammer.Index.Store.{
  rows_of, get_feed_payment_routes_for_feed, get_feed_list_value_raw_for_feed,
  get_feed_remote_items_for_feed,
}
use stophammer.Index.ClaimStore.{
  get_source_contributor_claims_for_feed, get_source_entity_ids_for_feed,
  get_source_entity_links_for_feed, get_source_release_claims_for_feed,
  get_source_item_enclosures_for_feed, get_source_item_transcripts_for_feed,
  get_source_platform_claims_for_feed, dedupe_source_contributor_claims, dedupe_source_entity_ids,
  dedupe_source_entity_links, dedupe_source_release_claims, dedupe_source_item_enclosures,
  dedupe_source_item_transcripts,
}
use stophammer.Index.Tracks.{get_feed_by_guid, get_track_for_feed}
use stophammer.Index.Tables.{
  IndexDb, live_guid, live_key, dedupe_live_events, dedupe_and_sort_live_events,
}
use stophammer.Index.Events.{Submission}
use stophammer.Common.{◌≡◌, All}
use stophammer.Index.Compare.{feed_fields, feed_route_fields, list_value_fields, remote_item_fields}
use stophammer.Index.ClaimCompare.{
  contributor_claim_fields, entity_id_fields, entity_link_fields, release_claim_fields,
  item_enclosure_fields, item_transcript_fields, platform_claim_fields,
}
use stophammer.Index.Store.{feed_route_guid, list_value_guid, remote_item_guid}
use stophammer.Index.ClaimStore.{
  contributor_claim_guid, entity_id_guid, entity_link_guid, release_claim_guid, item_enclosure_guid,
  item_transcript_guid, platform_claim_guid,
}
use stophammer.Index.TableLaws.{IsOf}
use stophammer.Index.Follow.FeedRow.{opt_fields, live_view}
use stophammer.Index.Follow.AllTracks.{AreDistinct, IsOfFeed}

-- The rows of the feeds themselves and of the lists on two nodes, in the fields that the code compares.
pub record FieldsAgree (p r : IndexDb) : Type 0 where
  pub feeds_agree :
      (k : String)
      → opt_fields feed_fields (get_feed_by_guid p.feeds k)
        ≡ opt_fields feed_fields (get_feed_by_guid r.feeds k)
  pub feed_routes_agree :
      (k : String)
      → map feed_route_fields (get_feed_payment_routes_for_feed p.feed_routes k)
        ≡ map feed_route_fields (get_feed_payment_routes_for_feed r.feed_routes k)
  pub list_values_agree :
      (k : String)
      → map list_value_fields (get_feed_list_value_raw_for_feed p.list_values k)
        ≡ map list_value_fields (get_feed_list_value_raw_for_feed r.list_values k)
  pub remote_items_agree :
      (k : String)
      → map remote_item_fields (get_feed_remote_items_for_feed p.remote_items k)
        ≡ map remote_item_fields (get_feed_remote_items_for_feed r.remote_items k)
  pub contributor_claims_agree :
      (k : String)
      → map contributor_claim_fields (get_source_contributor_claims_for_feed p.contributor_claims k)
        ≡ map contributor_claim_fields
            (get_source_contributor_claims_for_feed r.contributor_claims k)
  pub entity_ids_agree :
      (k : String)
      → map entity_id_fields (get_source_entity_ids_for_feed p.entity_ids k)
        ≡ map entity_id_fields (get_source_entity_ids_for_feed r.entity_ids k)
  pub entity_links_agree :
      (k : String)
      → map entity_link_fields (get_source_entity_links_for_feed p.entity_links k)
        ≡ map entity_link_fields (get_source_entity_links_for_feed r.entity_links k)
  pub release_claims_agree :
      (k : String)
      → map release_claim_fields (get_source_release_claims_for_feed p.release_claims k)
        ≡ map release_claim_fields (get_source_release_claims_for_feed r.release_claims k)
  pub item_enclosures_agree :
      (k : String)
      → map item_enclosure_fields (get_source_item_enclosures_for_feed p.item_enclosures k)
        ≡ map item_enclosure_fields (get_source_item_enclosures_for_feed r.item_enclosures k)
  pub item_transcripts_agree :
      (k : String)
      → map item_transcript_fields (get_source_item_transcripts_for_feed p.item_transcripts k)
        ≡ map item_transcript_fields (get_source_item_transcripts_for_feed r.item_transcripts k)
  pub platform_claims_agree :
      (k : String)
      → map platform_claim_fields (get_source_platform_claims_for_feed p.platform_claims k)
        ≡ map platform_claim_fields (get_source_platform_claims_for_feed r.platform_claims k)
  pub live_events_agree : (k : String) → live_view p.live_events k ≡ live_view r.live_events k

-- As the handler of src/api.rs builds a submission: every row names the feed, and no key stands twice among
-- the claims that are deduped there. No two tracks have one GUID, which the handler does not check.
pub record IsProper (s : Submission) : Type 0 where
  pub own_feed_routes : IsOf feed_route_guid s.feed.feed_guid s.feed_routes
  pub own_list_values : IsOf list_value_guid s.feed.feed_guid s.list_values
  pub own_remote_items : IsOf remote_item_guid s.feed.feed_guid s.remote_items
  pub own_contributor_claims : IsOf contributor_claim_guid s.feed.feed_guid s.contributor_claims
  pub distinct_contributor_claims :
      dedupe_source_contributor_claims s.contributor_claims ≡ s.contributor_claims
  pub own_entity_ids : IsOf entity_id_guid s.feed.feed_guid s.entity_ids
  pub distinct_entity_ids : dedupe_source_entity_ids s.entity_ids ≡ s.entity_ids
  pub own_entity_links : IsOf entity_link_guid s.feed.feed_guid s.entity_links
  pub distinct_entity_links : dedupe_source_entity_links s.entity_links ≡ s.entity_links
  pub own_release_claims : IsOf release_claim_guid s.feed.feed_guid s.release_claims
  pub distinct_release_claims : dedupe_source_release_claims s.release_claims ≡ s.release_claims
  pub own_item_enclosures : IsOf item_enclosure_guid s.feed.feed_guid s.item_enclosures
  pub distinct_item_enclosures : dedupe_source_item_enclosures s.item_enclosures ≡ s.item_enclosures
  pub own_item_transcripts : IsOf item_transcript_guid s.feed.feed_guid s.item_transcripts
  pub distinct_item_transcripts :
      dedupe_source_item_transcripts s.item_transcripts ≡ s.item_transcripts
  pub own_platform_claims : IsOf platform_claim_guid s.feed.feed_guid s.platform_claims
  pub own_live_events : IsOf live_guid s.feed.feed_guid (dedupe_live_events s.live_events)
  pub own_sorted_live_events :
      IsOf live_guid s.feed.feed_guid (dedupe_and_sort_live_events s.live_events)
  pub own_tracks : All (IsOfFeed s.feed.feed_guid) s.tracks
  pub distinct_tracks : AreDistinct s.tracks

-- No table names a feed that has no row, as the foreign keys of the schema say.
pub record HasNoStray (guid : String) (db : IndexDb) : Type 0 where
  pub no_feed_routes :
      get_feed_by_guid db.feeds guid ≡ none
      → get_feed_payment_routes_for_feed db.feed_routes guid ≡ []
  pub no_list_values :
      get_feed_by_guid db.feeds guid ≡ none
      → get_feed_list_value_raw_for_feed db.list_values guid ≡ []
  pub no_remote_items :
      get_feed_by_guid db.feeds guid ≡ none
      → get_feed_remote_items_for_feed db.remote_items guid ≡ []
  pub no_contributor_claims :
      get_feed_by_guid db.feeds guid ≡ none
      → get_source_contributor_claims_for_feed db.contributor_claims guid ≡ []
  pub no_entity_ids :
      get_feed_by_guid db.feeds guid ≡ none → get_source_entity_ids_for_feed db.entity_ids guid ≡ []
  pub no_entity_links :
      get_feed_by_guid db.feeds guid ≡ none
      → get_source_entity_links_for_feed db.entity_links guid ≡ []
  pub no_release_claims :
      get_feed_by_guid db.feeds guid ≡ none
      → get_source_release_claims_for_feed db.release_claims guid ≡ []
  pub no_item_enclosures :
      get_feed_by_guid db.feeds guid ≡ none
      → get_source_item_enclosures_for_feed db.item_enclosures guid ≡ []
  pub no_item_transcripts :
      get_feed_by_guid db.feeds guid ≡ none
      → get_source_item_transcripts_for_feed db.item_transcripts guid ≡ []
  pub no_platform_claims :
      get_feed_by_guid db.feeds guid ≡ none
      → get_source_platform_claims_for_feed db.platform_claims guid ≡ []
  pub no_live_events :
      get_feed_by_guid db.feeds guid ≡ none
      → sort_by live_key (rows_of live_guid guid db.live_events) ≡ []
  pub no_tracks :
      get_feed_by_guid db.feeds guid ≡ none
      → (t : String) → get_track_for_feed db.tracks guid t ≡ none
