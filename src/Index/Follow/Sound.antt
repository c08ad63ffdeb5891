-- ===== src/Index/Follow/Sound.antt =====
-- Both ways to make the events of an ingest are quiet only where nothing changed (src/db.rs).
use stophammer.Common.{false, not, none, some, List, [], ◌∷◌, map}
use stophammer.Common.Sorting.{sort_by}
use stophammer.Index.Rows.{Feed}
use stophammer.Index.Store.{
  rows_of, get_feed_payment_routes_for_feed, get_feed_list_value_raw_for_feed,
  get_feed_remote_items_for_feed,
}
use stophammer.Index.ClaimStore.{
  get_source_contributor_claims_for_feed, get_source_entity_ids_for_feed,
  get_source_entity_links_for_feed, get_source_release_claims_for_feed,
  get_source_item_enclosures_for_feed, get_source_item_transcripts_for_feed,
  get_source_platform_claims_for_feed,
}
use stophammer.Index.Compare.{
  feed_fields_changed, live_events_changed, feed_routes_changed, feed_list_values_changed,
  feed_remote_items_changed,
}
use stophammer.Index.ClaimCompare.{
  source_contributor_claims_changed, source_entity_ids_changed, source_entity_links_changed,
  source_release_claims_changed, source_item_enclosures_changed, source_item_transcripts_changed,
  source_platform_claims_changed,
}
use stophammer.Index.Tracks.{get_feed_by_guid}
use stophammer.Index.Tables.{IndexDb, live_guid, live_key, dedupe_and_sort_live_events}
use stophammer.Index.Events.{Submission}
use stophammer.Common.{◌≡◌, ap, ◌∙◌}
use stophammer.Common.Cells.{Cell, cells_eq_iff}
use stophammer.Index.Compare.{
  feed_fields, live_event_fields, feed_route_fields, list_value_fields, remote_item_fields,
}
use stophammer.Index.ClaimCompare.{
  contributor_claim_fields, entity_id_fields, entity_link_fields, release_claim_fields,
  item_enclosure_fields, item_transcript_fields, platform_claim_fields,
}
use stophammer.Index.Diff.{is_nil}
use stophammer.Index.TableLaws.{rows_changed_sound}
use stophammer.Index.Follow.FeedRow.{opt_fields}
use stophammer.Index.Follow.OneTrack.{true_of_not}
use stophammer.Index.Follow.Agree.{HasNoStray}
use stophammer.Index.Follow.Quiet.{tests_all, tests_changed, IsQuiet}

module _ (db : IndexDb) (s : Submission) where
  nil_quiet {ℓ} :
      {A : Type ℓ} (fields : A → List Cell) (stored new : List A)
      → stored ≡ []
      → not (is_nil new) ≡ false
      → map fields stored ≡ map fields new
  nil_quiet fields stored [] e h = ap (map fields) e
  nil_quiet fields stored (y ∷ ys) e h = cc

  pub tests_all-IsQuiet :
      HasNoStray s.feed.feed_guid db
      → get_feed_by_guid db.feeds s.feed.feed_guid ≡ none
      → IsQuiet db s (tests_all db s)
  tests_all-IsQuiet stray absent = record {
    feed_quiet = λ h. cc;
    feed_routes_quiet =
        nil_quiet feed_route_fields
          (get_feed_payment_routes_for_feed db.feed_routes s.feed.feed_guid) s.feed_routes
          (stray.no_feed_routes absent);
    list_values_quiet =
        nil_quiet list_value_fields
          (get_feed_list_value_raw_for_feed db.list_values s.feed.feed_guid) s.list_values
          (stray.no_list_values absent);
    remote_items_quiet =
        nil_quiet remote_item_fields
          (get_feed_remote_items_for_feed db.remote_items s.feed.feed_guid) s.remote_items
          (stray.no_remote_items absent);
    contributor_claims_quiet =
        nil_quiet contributor_claim_fields
          (get_source_contributor_claims_for_feed db.contributor_claims s.feed.feed_guid)
          s.contributor_claims (stray.no_contributor_claims absent);
    entity_ids_quiet =
        nil_quiet entity_id_fields (get_source_entity_ids_for_feed db.entity_ids s.feed.feed_guid)
          s.entity_ids (stray.no_entity_ids absent);
    entity_links_quiet =
        nil_quiet entity_link_fields
          (get_source_entity_links_for_feed db.entity_links s.feed.feed_guid) s.entity_links
          (stray.no_entity_links absent);
    release_claims_quiet =
        nil_quiet release_claim_fields
          (get_source_release_claims_for_feed db.release_claims s.feed.feed_guid) s.release_claims
          (stray.no_release_claims absent);
    item_enclosures_quiet =
        nil_quiet item_enclosure_fields
          (get_source_item_enclosures_for_feed db.item_enclosures s.feed.feed_guid)
          s.item_enclosures (stray.no_item_enclosures absent);
    item_transcripts_quiet =
        nil_quiet item_transcript_fields
          (get_source_item_transcripts_for_feed db.item_transcripts s.feed.feed_guid)
          s.item_transcripts (stray.no_item_transcripts absent);
    platform_claims_quiet =
        nil_quiet platform_claim_fields
          (get_source_platform_claims_for_feed db.platform_claims s.feed.feed_guid)
          s.platform_claims (stray.no_platform_claims absent);
    live_quiet =
        nil_quiet live_event_fields
          (sort_by live_key (rows_of live_guid s.feed.feed_guid db.live_events))
          (dedupe_and_sort_live_events s.live_events) (stray.no_live_events absent);
  }

  feed_sound :
      (existing : Feed)
      → feed_fields_changed existing s.feed ≡ false
      → feed_fields existing ≡ feed_fields s.feed
  unfolding feed_fields_changed
  feed_sound existing h =
      (cells_eq_iff (feed_fields existing) (feed_fields s.feed)).0 (true_of_not _ h)

  pub tests_changed-IsQuiet :
      (existing : Feed)
      → get_feed_by_guid db.feeds s.feed.feed_guid ≡ some existing
      → IsQuiet db s (tests_changed db s existing)
  unfolding live_events_changed feed_routes_changed feed_list_values_changed
      feed_remote_items_changed source_contributor_claims_changed source_entity_ids_changed
      source_entity_links_changed source_release_claims_changed source_item_enclosures_changed
      source_item_transcripts_changed source_platform_claims_changed
  tests_changed-IsQuiet existing there = record {
    feed_quiet = λ h. ap (opt_fields feed_fields) there ∙ ap some (feed_sound existing h);
    feed_routes_quiet =
        rows_changed_sound feed_route_fields
          (get_feed_payment_routes_for_feed db.feed_routes s.feed.feed_guid) s.feed_routes;
    list_values_quiet =
        rows_changed_sound list_value_fields
          (get_feed_list_value_raw_for_feed db.list_values s.feed.feed_guid) s.list_values;
    remote_items_quiet =
        rows_changed_sound remote_item_fields
          (get_feed_remote_items_for_feed db.remote_items s.feed.feed_guid) s.remote_items;
    contributor_claims_quiet =
        rows_changed_sound contributor_claim_fields
          (get_source_contributor_claims_for_feed db.contributor_claims s.feed.feed_guid)
          s.contributor_claims;
    entity_ids_quiet =
        rows_changed_sound entity_id_fields
          (get_source_entity_ids_for_feed db.entity_ids s.feed.feed_guid) s.entity_ids;
    entity_links_quiet =
        rows_changed_sound entity_link_fields
          (get_source_entity_links_for_feed db.entity_links s.feed.feed_guid) s.entity_links;
    release_claims_quiet =
        rows_changed_sound release_claim_fields
          (get_source_release_claims_for_feed db.release_claims s.feed.feed_guid) s.release_claims;
    item_enclosures_quiet =
        rows_changed_sound item_enclosure_fields
          (get_source_item_enclosures_for_feed db.item_enclosures s.feed.feed_guid)
          s.item_enclosures;
    item_transcripts_quiet =
        rows_changed_sound item_transcript_fields
          (get_source_item_transcripts_for_feed db.item_transcripts s.feed.feed_guid)
          s.item_transcripts;
    platform_claims_quiet =
        rows_changed_sound platform_claim_fields
          (get_source_platform_claims_for_feed db.platform_claims s.feed.feed_guid)
          s.platform_claims;
    live_quiet =
        rows_changed_sound live_event_fields
          (sort_by live_key (rows_of live_guid s.feed.feed_guid db.live_events))
          (dedupe_and_sort_live_events s.live_events);
  }
