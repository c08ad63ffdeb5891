-- ===== src/Index/Follow/SameRows.antt =====
-- When two nodes agree on a feed (src/db.rs), and the same in the cells that the comparisons read.
use stophammer.Common.{◌≡◌, map, String}
use stophammer.Common.Keyed.{map_row}
use stophammer.Common.Sorting.{sort_by}
use stophammer.Index.Compare.{
  feed_fields, track_fields, feed_route_fields, list_value_fields, remote_item_fields,
  track_remote_item_fields, live_event_fields,
}
use stophammer.Index.ClaimCompare.{
  contributor_claim_fields, entity_id_fields, entity_link_fields, release_claim_fields,
  item_enclosure_fields, item_transcript_fields, platform_claim_fields,
}
use stophammer.Index.Store.{
  rows_of, get_feed_payment_routes_for_feed, get_feed_list_value_raw_for_feed,
  get_feed_remote_items_for_feed,
}
use stophammer.Index.ClaimStore.{
  get_source_contributor_claims_for_feed, get_source_entity_ids_for_feed,
  get_source_entity_links_for_feed, get_source_release_claims_for_feed,
  get_source_item_enclosures_for_feed, get_source_item_transcripts_for_feed,
  get_source_platform_claims_for_feed,
}
use stophammer.Index.Tracks.{
  get_feed_by_guid, get_track_for_feed, get_track_remote_items_for_feed_track,
}
use stophammer.Index.Tables.{IndexDb, live_guid, live_key}
use stophammer.Index.Follow.SharedRows.{
  feed_shared, feed-IsShared, track_shared, track-IsShared, feed_route_shared, feed_route-IsShared,
  list_value_shared, list_value-IsShared, remote_item_shared, remote_item-IsShared,
  track_remote_item_shared, track_remote_item-IsShared, live_event_shared, live_event-IsShared,
}
use stophammer.Index.Follow.SharedClaims.{
  contributor_claim_shared, contributor_claim-IsShared, entity_id_shared, entity_id-IsShared,
  entity_link_shared, entity_link-IsShared, release_claim_shared, release_claim-IsShared,
  item_enclosure_shared, item_enclosure-IsShared, item_transcript_shared, item_transcript-IsShared,
  platform_claim_shared, platform_claim-IsShared,
}
use stophammer.Index.Follow.Cellwise.{
  map_to_shared, map_from_shared, opt_to_shared, opt_from_shared,
}
use stophammer.Index.Follow.Agree.{FieldsAgree}
use stophammer.Index.Follow.OneTrack.{TracksAgree}

-- Two nodes hold the same rows of every feed, of its ten lists and of its live events, and the same tracks
-- and remote items of tracks in one feed, but for the fields that the `.._shared` functions clear.
pub record Agree (guid : String) (p r : IndexDb) : Type 0 where
  pub same_feeds :
      (k : String)
      → map_row feed_shared (get_feed_by_guid p.feeds k)
        ≡ map_row feed_shared (get_feed_by_guid r.feeds k)
  pub same_tracks :
      (t : String)
      → map_row track_shared (get_track_for_feed p.tracks guid t)
        ≡ map_row track_shared (get_track_for_feed r.tracks guid t)
  pub same_track_items :
      (t : String)
      → map track_remote_item_shared (get_track_remote_items_for_feed_track p.track_items guid t)
        ≡ map track_remote_item_shared (get_track_remote_items_for_feed_track r.track_items guid t)
  pub same_live_events :
      (k : String)
      → map live_event_shared (sort_by live_key (rows_of live_guid k p.live_events))
        ≡ map live_event_shared (sort_by live_key (rows_of live_guid k r.live_events))
  pub same_feed_routes :
      (k : String)
      → map feed_route_shared (get_feed_payment_routes_for_feed p.feed_routes k)
        ≡ map feed_route_shared (get_feed_payment_routes_for_feed r.feed_routes k)
  pub same_list_values :
      (k : String)
      → map list_value_shared (get_feed_list_value_raw_for_feed p.list_values k)
        ≡ map list_value_shared (get_feed_list_value_raw_for_feed r.list_values k)
  pub same_remote_items :
      (k : String)
      → map remote_item_shared (get_feed_remote_items_for_feed p.remote_items k)
        ≡ map remote_item_shared (get_feed_remote_items_for_feed r.remote_items k)
  pub same_contributor_claims :
      (k : String)
      → map contributor_claim_shared (get_source_contributor_claims_for_feed p.contributor_claims k)
        ≡ map contributor_claim_shared
            (get_source_contributor_claims_for_feed r.contributor_claims k)
  pub same_entity_ids :
      (k : String)
      → map entity_id_shared (get_source_entity_ids_for_feed p.entity_ids k)
        ≡ map entity_id_shared (get_source_entity_ids_for_feed r.entity_ids k)
  pub same_entity_links :
      (k : String)
      → map entity_link_shared (get_source_entity_links_for_feed p.entity_links k)
        ≡ map entity_link_shared (get_source_entity_links_for_feed r.entity_links k)
  pub same_release_claims :
      (k : String)
      → map release_claim_shared (get_source_release_claims_for_feed p.release_claims k)
        ≡ map release_claim_shared (get_source_release_claims_for_feed r.release_claims k)
  pub same_item_enclosures :
      (k : String)
      → map item_enclosure_shared (get_source_item_enclosures_for_feed p.item_enclosures k)
        ≡ map item_enclosure_shared (get_source_item_enclosures_for_feed r.item_enclosures k)
  pub same_item_transcripts :
      (k : String)
      → map item_transcript_shared (get_source_item_transcripts_for_feed p.item_transcripts k)
        ≡ map item_transcript_shared (get_source_item_transcripts_for_feed r.item_transcripts k)
  pub same_platform_claims :
      (k : String)
      → map platform_claim_shared (get_source_platform_claims_for_feed p.platform_claims k)
        ≡ map platform_claim_shared (get_source_platform_claims_for_feed r.platform_claims k)

abbrev pub CellsAgree : String → IndexDb → IndexDb → Type 0
CellsAgree guid p r = FieldsAgree p r × TracksAgree guid p r

pub Agree-cells : (guid : String) (p r : IndexDb) → Agree guid p r → CellsAgree guid p r
Agree-cells guid p r h = (
  record {
    feeds_agree = λ k.
        opt_from_shared feed_fields feed_shared feed-IsShared (get_feed_by_guid p.feeds k)
          (get_feed_by_guid r.feeds k) (h.same_feeds k);
    live_events_agree = λ k.
        map_from_shared live_event_fields live_event_shared live_event-IsShared
          (sort_by live_key (rows_of live_guid k p.live_events))
          (sort_by live_key (rows_of live_guid k r.live_events)) (h.same_live_events k);
    feed_routes_agree = λ k.
        map_from_shared feed_route_fields feed_route_shared feed_route-IsShared
          (get_feed_payment_routes_for_feed p.feed_routes k)
          (get_feed_payment_routes_for_feed r.feed_routes k) (h.same_feed_routes k);
    list_values_agree = λ k.
        map_from_shared list_value_fields list_value_shared list_value-IsShared
          (get_feed_list_value_raw_for_feed p.list_values k)
          (get_feed_list_value_raw_for_feed r.list_values k) (h.same_list_values k);
    remote_items_agree = λ k.
        map_from_shared remote_item_fields remote_item_shared remote_item-IsShared
          (get_feed_remote_items_for_feed p.remote_items k)
          (get_feed_remote_items_for_feed r.remote_items k) (h.same_remote_items k);
    contributor_claims_agree = λ k.
        map_from_shared contributor_claim_fields contributor_claim_shared contributor_claim-IsShared
          (get_source_contributor_claims_for_feed p.contributor_claims k)
          (get_source_contributor_claims_for_feed r.contributor_claims k)
          (h.same_contributor_claims k);
    entity_ids_agree = λ k.
        map_from_shared entity_id_fields entity_id_shared entity_id-IsShared
          (get_source_entity_ids_for_feed p.entity_ids k)
          (get_source_entity_ids_for_feed r.entity_ids k) (h.same_entity_ids k);
    entity_links_agree = λ k.
        map_from_shared entity_link_fields entity_link_shared entity_link-IsShared
          (get_source_entity_links_for_feed p.entity_links k)
          (get_source_entity_links_for_feed r.entity_links k) (h.same_entity_links k);
    release_claims_agree = λ k.
        map_from_shared release_claim_fields release_claim_shared release_claim-IsShared
          (get_source_release_claims_for_feed p.release_claims k)
          (get_source_release_claims_for_feed r.release_claims k) (h.same_release_claims k);
    item_enclosures_agree = λ k.
        map_from_shared item_enclosure_fields item_enclosure_shared item_enclosure-IsShared
          (get_source_item_enclosures_for_feed p.item_enclosures k)
          (get_source_item_enclosures_for_feed r.item_enclosures k) (h.same_item_enclosures k);
    item_transcripts_agree = λ k.
        map_from_shared item_transcript_fields item_transcript_shared item_transcript-IsShared
          (get_source_item_transcripts_for_feed p.item_transcripts k)
          (get_source_item_transcripts_for_feed r.item_transcripts k) (h.same_item_transcripts k);
    platform_claims_agree = λ k.
        map_from_shared platform_claim_fields platform_claim_shared platform_claim-IsShared
          (get_source_platform_claims_for_feed p.platform_claims k)
          (get_source_platform_claims_for_feed r.platform_claims k) (h.same_platform_claims k);
  },
  (
    λ t.
        opt_from_shared track_fields track_shared track-IsShared
          (get_track_for_feed p.tracks guid t) (get_track_for_feed r.tracks guid t)
          (h.same_tracks t),
    λ t.
        map_from_shared track_remote_item_fields track_remote_item_shared track_remote_item-IsShared
          (get_track_remote_items_for_feed_track p.track_items guid t)
          (get_track_remote_items_for_feed_track r.track_items guid t) (h.same_track_items t),
  ),
)

pub cells-Agree : (guid : String) (p r : IndexDb) → CellsAgree guid p r → Agree guid p r
cells-Agree guid p r h = record {
  same_feeds = λ k.
      opt_to_shared feed_fields feed_shared feed-IsShared (get_feed_by_guid p.feeds k)
        (get_feed_by_guid r.feeds k) (h.0.feeds_agree k);
  same_tracks = λ t.
      opt_to_shared track_fields track_shared track-IsShared (get_track_for_feed p.tracks guid t)
        (get_track_for_feed r.tracks guid t) (h.1.0 t);
  same_track_items = λ t.
      map_to_shared track_remote_item_fields track_remote_item_shared track_remote_item-IsShared
        (get_track_remote_items_for_feed_track p.track_items guid t)
        (get_track_remote_items_for_feed_track r.track_items guid t) (h.1.1 t);
  same_live_events = λ k.
      map_to_shared live_event_fields live_event_shared live_event-IsShared
        (sort_by live_key (rows_of live_guid k p.live_events))
        (sort_by live_key (rows_of live_guid k r.live_events)) (h.0.live_events_agree k);
  same_feed_routes = λ k.
      map_to_shared feed_route_fields feed_route_shared feed_route-IsShared
        (get_feed_payment_routes_for_feed p.feed_routes k)
        (get_feed_payment_routes_for_feed r.feed_routes k) (h.0.feed_routes_agree k);
  same_list_values = λ k.
      map_to_shared list_value_fields list_value_shared list_value-IsShared
        (get_feed_list_value_raw_for_feed p.list_values k)
        (get_feed_list_value_raw_for_feed r.list_values k) (h.0.list_values_agree k);
  same_remote_items = λ k.
      map_to_shared remote_item_fields remote_item_shared remote_item-IsShared
        (get_feed_remote_items_for_feed p.remote_items k)
        (get_feed_remote_items_for_feed r.remote_items k) (h.0.remote_items_agree k);
  same_contributor_claims = λ k.
      map_to_shared contributor_claim_fields contributor_claim_shared contributor_claim-IsShared
        (get_source_contributor_claims_for_feed p.contributor_claims k)
        (get_source_contributor_claims_for_feed r.contributor_claims k)
        (h.0.contributor_claims_agree k);
  same_entity_ids = λ k.
      map_to_shared entity_id_fields entity_id_shared entity_id-IsShared
        (get_source_entity_ids_for_feed p.entity_ids k)
        (get_source_entity_ids_for_feed r.entity_ids k) (h.0.entity_ids_agree k);
  same_entity_links = λ k.
      map_to_shared entity_link_fields entity_link_shared entity_link-IsShared
        (get_source_entity_links_for_feed p.entity_links k)
        (get_source_entity_links_for_feed r.entity_links k) (h.0.entity_links_agree k);
  same_release_claims = λ k.
      map_to_shared release_claim_fields release_claim_shared release_claim-IsShared
        (get_source_release_claims_for_feed p.release_claims k)
        (get_source_release_claims_for_feed r.release_claims k) (h.0.release_claims_agree k);
  same_item_enclosures = λ k.
      map_to_shared item_enclosure_fields item_enclosure_shared item_enclosure-IsShared
        (get_source_item_enclosures_for_feed p.item_enclosures k)
        (get_source_item_enclosures_for_feed r.item_enclosures k) (h.0.item_enclosures_agree k);
  same_item_transcripts = λ k.
      map_to_shared item_transcript_fields item_transcript_shared item_transcript-IsShared
        (get_source_item_transcripts_for_feed p.item_transcripts k)
        (get_source_item_transcripts_for_feed r.item_transcripts k) (h.0.item_transcripts_agree k);
  same_platform_claims = λ k.
      map_to_shared platform_claim_fields platform_claim_shared platform_claim-IsShared
        (get_source_platform_claims_for_feed p.platform_claims k)
        (get_source_platform_claims_for_feed r.platform_claims k) (h.0.platform_claims_agree k);
}
