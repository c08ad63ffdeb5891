-- ===== src/Index/Diff.antt =====
-- `build_diff_events`, `build_all_events` and `build_changed_events` of src/db.rs.
use stophammer.Common.{
  Bool, true, false, not, ◌||◌, Option, none, some, List, [], ◌∷◌, ◌++◌, String, if◌then◌else◌,
}
use stophammer.Common.Int.{ℤ}
use stophammer.Common.Sorting.{sort_by}
use stophammer.Index.Rows.{Feed, Track}
use stophammer.Index.Store.{
  rows_of, get_feed_payment_routes_for_feed, get_feed_list_value_raw_for_feed,
  get_feed_remote_items_for_feed,
}
use stophammer.Index.ClaimStore.{
  get_source_contributor_claims_for_feed, get_source_entity_ids_for_feed,
  get_source_entity_links_for_feed, get_source_release_claims_for_feed,
  get_source_item_enclosures_for_feed, get_source_item_transcripts_for_feed,
  get_source_platform_claims_for_feed,
}
use stophammer.Index.Compare.{
  feed_fields_changed, track_fields_changed, track_remote_items_changed, live_events_changed,
  feed_routes_changed, feed_list_values_changed, feed_remote_items_changed,
}
use stophammer.Index.ClaimCompare.{
  source_contributor_claims_changed, source_entity_ids_changed, source_entity_links_changed,
  source_release_claims_changed, source_item_enclosures_changed, source_item_transcripts_changed,
  source_platform_claims_changed,
}
use stophammer.Index.Tracks.{
  get_feed_by_guid, get_track_for_feed, get_track_remote_items_for_feed_track,
}
use stophammer.Index.Tables.{IndexDb, live_guid, live_key, dedupe_and_sort_live_events}
use stophammer.Index.Events.{
  EventRow, TrackIngestBundle, Submission, build_feed_upserted_event, build_track_upserted_event,
  build_track_remote_items_event, build_feed_routes_event, build_feed_list_value_event,
  build_feed_remote_items_event, build_source_contributor_claims_event,
  build_source_entity_ids_event, build_source_entity_links_event, build_source_release_claims_event,
  build_source_item_enclosures_event, build_source_item_transcripts_event,
  build_source_platform_claims_event, build_live_events_event,
}

abbrev pub is_nil {ℓ} : {A : Type ℓ} → List A → Bool
is_nil [] = true
is_nil (x ∷ xs) = false

-- `if test { event_rows.push(event) }`.
abbrev pub push_if : Bool → EventRow → List EventRow
push_if test event = if test then event ∷ [] else []

module _ (now : ℤ) (warnings : List String) where
  abbrev pub all_of_track : TrackIngestBundle → List EventRow
  all_of_track b =
      build_track_upserted_event now warnings b
      ∷ push_if (not (is_nil b.remote_items))
          (build_track_remote_items_event now warnings b.track b.remote_items)

  unfoldable pub all_of_tracks : List TrackIngestBundle → List EventRow
  all_of_tracks [] = []
  all_of_tracks (b ∷ rest) = all_of_track b ++ all_of_tracks rest

  unfoldable pub build_all_events : Submission → List EventRow
  unfolding all_of_tracks dedupe_and_sort_live_events
  build_all_events s =
      build_feed_upserted_event now warnings s.feed
      ∷ (push_if (not (is_nil s.feed_routes))
            (build_feed_routes_event now warnings s.feed s.feed_routes)
          ++ (push_if (not (is_nil s.list_values))
                (build_feed_list_value_event now warnings s.feed s.list_values)
              ++ (push_if (not (is_nil s.remote_items))
                    (build_feed_remote_items_event now warnings s.feed s.remote_items)
                  ++ (push_if (not (is_nil s.contributor_claims)) (
                        build_source_contributor_claims_event now warnings s.feed
                          s.contributor_claims)
                      ++ (push_if (not (is_nil s.entity_ids))
                            (build_source_entity_ids_event now warnings s.feed s.entity_ids)
                          ++ (push_if (not (is_nil s.entity_links))
                                (build_source_entity_links_event now warnings s.feed s.entity_links)
                              ++ (push_if (not (is_nil s.release_claims)) (
                                    build_source_release_claims_event now warnings s.feed
                                      s.release_claims)
                                  ++ (push_if (not (is_nil s.item_enclosures)) (
                                        build_source_item_enclosures_event now warnings s.feed
                                          s.item_enclosures)
                                      ++ (push_if (not (is_nil s.item_transcripts)) (
                                            build_source_item_transcripts_event now warnings s.feed
                                              s.item_transcripts)
                                          ++ (push_if (not (is_nil s.platform_claims)) (
                                                build_source_platform_claims_event now warnings
                                                  s.feed s.platform_claims)
                                              ++ (push_if
                                                    (not (
                                                      is_nil (
                                                        dedupe_and_sort_live_events s.live_events)))
                                                    (build_live_events_event now warnings s.feed
                                                      (dedupe_and_sort_live_events s.live_events))
                                                  ++ all_of_tracks s.tracks)))))))))))

  -- The events of a track whose stored row is `existing`.
  abbrev pub changed_of_track : IndexDb → TrackIngestBundle → Option Track → List EventRow
  changed_of_track db b none =
      build_track_upserted_event now warnings b
      ∷ push_if (not (is_nil b.remote_items))
          (build_track_remote_items_event now warnings b.track b.remote_items)
  changed_of_track db b (some existing) =
      let stored =
        get_track_remote_items_for_feed_track db.track_items b.track.feed_guid b.track.track_guid in
      if track_fields_changed existing b.track
      then build_track_upserted_event now warnings b
        ∷ push_if (not (is_nil b.remote_items) || not (is_nil stored))
            (build_track_remote_items_event now warnings b.track b.remote_items)
      else push_if (track_remote_items_changed stored b.remote_items)
          (build_track_remote_items_event now warnings b.track b.remote_items)

  -- The map of the tracks of the feed is looked up by the GUID of the track.
  unfoldable pub changed_of_tracks : IndexDb → String → List TrackIngestBundle → List EventRow
  unfolding get_track_for_feed get_track_remote_items_for_feed_track track_fields_changed
      track_remote_items_changed
  changed_of_tracks db guid [] = []
  changed_of_tracks db guid (b ∷ rest) =
      changed_of_track db b (get_track_for_feed db.tracks guid b.track.track_guid)
      ++ changed_of_tracks db guid rest

  unfoldable pub build_changed_events : IndexDb → Submission → Feed → List EventRow
  unfolding changed_of_tracks feed_fields_changed dedupe_and_sort_live_events live_events_changed
      rows_of sort_by feed_routes_changed get_feed_payment_routes_for_feed feed_list_values_changed
      get_feed_list_value_raw_for_feed feed_remote_items_changed get_feed_remote_items_for_feed
      source_contributor_claims_changed get_source_contributor_claims_for_feed
      source_entity_ids_changed get_source_entity_ids_for_feed source_entity_links_changed
      get_source_entity_links_for_feed source_release_claims_changed
      get_source_release_claims_for_feed source_item_enclosures_changed
      get_source_item_enclosures_for_feed source_item_transcripts_changed
      get_source_item_transcripts_for_feed source_platform_claims_changed
      get_source_platform_claims_for_feed
  build_changed_events db s existing =
      let guid = s.feed.feed_guid in
      push_if (feed_fields_changed existing s.feed) (build_feed_upserted_event now warnings s.feed)
      ++ (push_if
            (feed_routes_changed (get_feed_payment_routes_for_feed db.feed_routes guid)
              s.feed_routes)
            (build_feed_routes_event now warnings s.feed s.feed_routes)
          ++ (push_if
                (feed_list_values_changed (get_feed_list_value_raw_for_feed db.list_values guid)
                  s.list_values)
                (build_feed_list_value_event now warnings s.feed s.list_values)
              ++ (push_if
                    (feed_remote_items_changed (get_feed_remote_items_for_feed db.remote_items guid)
                      s.remote_items)
                    (build_feed_remote_items_event now warnings s.feed s.remote_items)
                  ++ (push_if
                        (source_contributor_claims_changed
                          (get_source_contributor_claims_for_feed db.contributor_claims guid)
                          s.contributor_claims)
                        (build_source_contributor_claims_event now warnings s.feed
                          s.contributor_claims)
                      ++ (push_if
                            (source_entity_ids_changed
                              (get_source_entity_ids_for_feed db.entity_ids guid) s.entity_ids)
                            (build_source_entity_ids_event now warnings s.feed s.entity_ids)
                          ++ (push_if
                                (source_entity_links_changed
                                  (get_source_entity_links_for_feed db.entity_links guid)
                                  s.entity_links)
                                (build_source_entity_links_event now warnings s.feed s.entity_links)
                              ++ (push_if
                                    (source_release_claims_changed
                                      (get_source_release_claims_for_feed db.release_claims guid)
                                      s.release_claims)
                                    (build_source_release_claims_event now warnings s.feed
                                      s.release_claims)
                                  ++ (push_if
                                        (source_item_enclosures_changed
                                          (get_source_item_enclosures_for_feed db.item_enclosures
                                            guid)
                                          s.item_enclosures)
                                        (build_source_item_enclosures_event now warnings s.feed
                                          s.item_enclosures)
                                      ++ (push_if
                                            (source_item_transcripts_changed
                                              (get_source_item_transcripts_for_feed
                                                db.item_transcripts guid)
                                              s.item_transcripts)
                                            (build_source_item_transcripts_event now warnings s.feed
                                              s.item_transcripts)
                                          ++ (push_if
                                                (source_platform_claims_changed
                                                  (get_source_platform_claims_for_feed
                                                    db.platform_claims guid)
                                                  s.platform_claims)
                                                (build_source_platform_claims_event now warnings
                                                  s.feed s.platform_claims)
                                              ++ (push_if
                                                    (live_events_changed
                                                      (sort_by live_key
                                                        (rows_of live_guid guid db.live_events))
                                                      (dedupe_and_sort_live_events s.live_events))
                                                    (build_live_events_event now warnings s.feed
                                                      (dedupe_and_sort_live_events s.live_events))
                                                  ++ changed_of_tracks db guid s.tracks)))))))))))

  abbrev pub by_existing_feed : IndexDb → Submission → Option Feed → List EventRow
  by_existing_feed db s none = build_all_events s
  by_existing_feed db s (some existing) = build_changed_events db s existing

  unfoldable pub build_diff_events : IndexDb → Submission → List EventRow
  unfolding build_all_events build_changed_events get_feed_by_guid
  build_diff_events db s = by_existing_feed db s (get_feed_by_guid db.feeds s.feed.feed_guid)
