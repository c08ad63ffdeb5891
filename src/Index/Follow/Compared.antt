-- ===== src/Index/Follow/Compared.antt =====
-- The events of an ingest keep the cells of a replica those of the primary (src/db.rs, src/apply.rs).
use stophammer.Index.Follow.SameRows.{CellsAgree}
use stophammer.Common.{Option, none, some, List, [], ◌∷◌, ◌++◌, String, map}
use stophammer.Common.Int.{ℤ}
use stophammer.Index.Rows.{Feed}
use stophammer.Index.Tracks.{get_feed_by_guid}
use stophammer.Index.Tables.{IndexDb}
use stophammer.Index.Events.{EventRow, TrackIngestBundle, Submission}
use stophammer.Common.{◌≡◌, refl, sym, ap, subst, ◌∙◌, All}
use stophammer.Index.Diff.{
  changed_of_tracks, build_all_events, build_changed_events, build_diff_events, by_existing_feed,
}
use stophammer.Index.Ingest.{
  write_feed_rows, write_tracks, stale_guids, remove_tracks, removal_event, ingest_transaction,
}
use stophammer.Index.Apply.{apply_rows}
use stophammer.Index.Follow.OneTrack.{TracksAgree, HasNoOrphan}
use stophammer.Index.Follow.AllTracks.{
  apply_rows-append, IsAsStored, tracks-follow, removals-follow,
}
use stophammer.Index.Follow.Agree.{FieldsAgree, IsProper, HasNoStray}
use stophammer.Index.Follow.FeedEvents.{
  EventTests, feed_events, after_feed_events, apply_rows-feed_events,
}
use stophammer.Index.Follow.Unmoved.{
  feed_tables, feed_tables-write_tracks, feed_tables-remove_tracks, feed_tables-removals,
  feed_tables-changed, changed_of_tracks-new,
}
use stophammer.Index.Follow.FeedTables.{feeds-follow}
use stophammer.Index.Follow.Quiet.{tests_all, tests_changed, IsQuiet}
use stophammer.Index.Follow.Sound.{tests_all-IsQuiet, tests_changed-IsQuiet}

kept_rows :
    (g : String) (db p : IndexDb) (bs : List TrackIngestBundle)
    → p.tracks ≡ db.tracks
    → p.track_items ≡ db.track_items
    → All (IsAsStored g db p) bs
kept_rows g db p [] tracks items = tt
kept_rows g db p (b ∷ rest) tracks items =
    ((rw tracks refl, rw items refl), kept_rows g db p rest tracks items)

-- The events of an ingest: those of the feed with the tests `c`, those of the tracks, and the removals.
abbrev ingest_events : ℤ → List String → IndexDb → Submission → EventTests → List EventRow
ingest_events now warnings db s c =
    feed_events now warnings s c (changed_of_tracks now warnings db s.feed.feed_guid s.tracks)

module _ (now : ℤ) (warnings : List String) (db r : IndexDb) (s : Submission) (proper : IsProper s)
    (orphan : HasNoOrphan s.feed.feed_guid db) (agree : CellsAgree s.feed.feed_guid db r) where
  -- The primary after its writes and the replica after the events, `c` being the tests.
  abbrev primary : IndexDb
  primary = write_tracks (write_feed_rows db s) s.tracks

  abbrev replica : EventTests → IndexDb
  replica c =
      apply_rows (after_feed_events now warnings s c r)
        (changed_of_tracks now warnings db s.feed.feed_guid s.tracks)

  replica-events :
      (c : EventTests)
      → apply_rows r
          (ingest_events now warnings db s c ++ map (removal_event s.feed) (stale_guids db s))
        ≡ apply_rows (replica c) (map (removal_event s.feed) (stale_guids db s))
  replica-events c =
      apply_rows-append r (ingest_events now warnings db s c)
        (map (removal_event s.feed) (stale_guids db s))
      ∙ ap (λ x. apply_rows x (map (removal_event s.feed) (stale_guids db s)))
          (apply_rows-feed_events now warnings s c r
            (changed_of_tracks now warnings db s.feed.feed_guid s.tracks))

  rows_kept :
      ((write_feed_rows db s).tracks ≡ db.tracks)
      × ((write_feed_rows db s).track_items ≡ db.track_items)
  unfolding write_feed_rows
  rows_kept = (refl, refl)

  tracks_before :
      (c : EventTests)
      → TracksAgree s.feed.feed_guid (write_feed_rows db s) (after_feed_events now warnings s c r)
  unfolding write_feed_rows
  tracks_before c = agree.1

  tracks_agree :
      (c : EventTests)
      → TracksAgree s.feed.feed_guid
          (remove_tracks primary s.feed.feed_guid (stale_guids db s))
          (apply_rows (replica c) (map (removal_event s.feed) (stale_guids db s)))
  tracks_agree c = removals-follow s.feed primary (replica c) (stale_guids db s) (
      tracks-follow now warnings s.feed.feed_guid db orphan (write_feed_rows db s)
        (after_feed_events now warnings s c r) s.tracks proper.own_tracks proper.distinct_tracks
        (kept_rows s.feed.feed_guid db (write_feed_rows db s) s.tracks rows_kept.0 rows_kept.1)
        (tracks_before c))

  feeds_of : (p q : IndexDb) → FieldsAgree (feed_tables p) (feed_tables q) → FieldsAgree p q
  feeds_of p q h = record {
    feeds_agree = h.feeds_agree;
    feed_routes_agree = h.feed_routes_agree;
    list_values_agree = h.list_values_agree;
    remote_items_agree = h.remote_items_agree;
    contributor_claims_agree = h.contributor_claims_agree;
    entity_ids_agree = h.entity_ids_agree;
    entity_links_agree = h.entity_links_agree;
    release_claims_agree = h.release_claims_agree;
    item_enclosures_agree = h.item_enclosures_agree;
    item_transcripts_agree = h.item_transcripts_agree;
    platform_claims_agree = h.platform_claims_agree;
    live_events_agree = h.live_events_agree;
  }

  of_feeds : (p q : IndexDb) → FieldsAgree p q → FieldsAgree (feed_tables p) (feed_tables q)
  of_feeds p q h = record {
    feeds_agree = h.feeds_agree;
    feed_routes_agree = h.feed_routes_agree;
    list_values_agree = h.list_values_agree;
    remote_items_agree = h.remote_items_agree;
    contributor_claims_agree = h.contributor_claims_agree;
    entity_ids_agree = h.entity_ids_agree;
    entity_links_agree = h.entity_links_agree;
    release_claims_agree = h.release_claims_agree;
    item_enclosures_agree = h.item_enclosures_agree;
    item_transcripts_agree = h.item_transcripts_agree;
    platform_claims_agree = h.platform_claims_agree;
    live_events_agree = h.live_events_agree;
  }

  feeds_after :
      (c : EventTests)
      → IsQuiet db s c
      → FieldsAgree
          (remove_tracks primary s.feed.feed_guid (stale_guids db s))
          (apply_rows (replica c) (map (removal_event s.feed) (stale_guids db s)))
  feeds_after c quiet =
      let p = remove_tracks primary s.feed.feed_guid (stale_guids db s) in
      let q = apply_rows (replica c) (map (removal_event s.feed) (stale_guids db s)) in
      let q0 = after_feed_events now warnings s c r in
      let left : feed_tables p ≡ feed_tables (write_feed_rows db s) =
        feed_tables-remove_tracks primary s.feed.feed_guid (stale_guids db s)
        ∙ feed_tables-write_tracks (write_feed_rows db s) s.tracks in
      let right : feed_tables q ≡ feed_tables q0 =
        feed_tables-removals s.feed (replica c) (stale_guids db s)
        ∙ feed_tables-changed now warnings db q0 s.feed.feed_guid s.tracks in
      feeds_of p q (
        subst (λ x. FieldsAgree x (feed_tables q)) (sym left)
          (subst (FieldsAgree (feed_tables (write_feed_rows db s))) (sym right) (
            of_feeds (write_feed_rows db s) q0
              (feeds-follow db s now warnings r c proper quiet agree.0))))

  ingest_events-CellsAgree :
      (c : EventTests)
      → IsQuiet db s c
      → CellsAgree s.feed.feed_guid
          (ingest_transaction db s).0
          (apply_rows r (ingest_events now warnings db s c ++ (ingest_transaction db s).1))
  unfolding ingest_transaction
  ingest_events-CellsAgree c quiet =
      subst
        (CellsAgree s.feed.feed_guid (remove_tracks primary s.feed.feed_guid (stale_guids db s)))
        (sym (replica-events c)) (feeds_after c quiet, tracks_agree c)

  diff_of :
      (o : Option Feed)
      → HasNoStray s.feed.feed_guid db
      → get_feed_by_guid db.feeds s.feed.feed_guid ≡ o
      → CellsAgree s.feed.feed_guid
          (ingest_transaction db s).0
          (apply_rows r (by_existing_feed now warnings db s o ++ (ingest_transaction db s).1))
  unfolding build_all_events build_changed_events
  diff_of none stray e =
      subst
        (λ events. CellsAgree s.feed.feed_guid (ingest_transaction db s).0 (
          apply_rows r
            (feed_events now warnings s (tests_all db s) events ++ (ingest_transaction db s).1)))
        (changed_of_tracks-new now warnings db s.feed.feed_guid s.tracks (stray.no_tracks e))
        (ingest_events-CellsAgree (tests_all db s) (tests_all-IsQuiet db s stray e))
  diff_of (some existing) stray e =
      ingest_events-CellsAgree (tests_changed db s existing) (tests_changed-IsQuiet db s existing e)

pub ingest_transaction-CellsAgree :
    (now : ℤ) (warnings : List String) (db r : IndexDb) (s : Submission)
    → IsProper s
    → HasNoOrphan s.feed.feed_guid db
    → HasNoStray s.feed.feed_guid db
    → CellsAgree s.feed.feed_guid db r
    → CellsAgree s.feed.feed_guid
        (ingest_transaction db s).0
        (apply_rows r (build_diff_events now warnings db s ++ (ingest_transaction db s).1))
unfolding build_diff_events
ingest_transaction-CellsAgree now warnings db r s proper orphan stray agree =
    diff_of now warnings db r s proper orphan agree (get_feed_by_guid db.feeds s.feed.feed_guid)
      stray refl
