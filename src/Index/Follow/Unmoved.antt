-- ===== src/Index/Follow/Unmoved.antt =====
-- The events and the writes of tracks leave the rows of the feed itself as they are (src/db.rs,
-- src/apply.rs).
use stophammer.Common.{Bool, true, false, none, List, [], ◌∷◌, ◌++◌, String, map, is_some}
use stophammer.Common.Int.{ℤ}
use stophammer.Index.Rows.{Feed}
use stophammer.Index.Tracks.{get_track_for_feed, get_track_remote_items_for_feed_track}
use stophammer.Index.Tables.{IndexDb, delete_track_sql}
use stophammer.Index.Events.{TrackIngestBundle}
use stophammer.Common.{◌≡◌, refl, ap, ◌∙◌, Bool-cases, inl, inr}
use stophammer.Index.Diff.{all_of_track, all_of_tracks, changed_of_tracks, changed_of_track}
use stophammer.Index.Ingest.{write_track, write_tracks, remove_tracks, removal_event}
use stophammer.Index.Apply.{apply_row_payload, apply_rows}
use stophammer.Index.Follow.OneTrack.{pushed, changed_of_track_lem, track_test, item_test}
use stophammer.Index.Follow.AllTracks.{apply_rows-append, remove_track}

-- The tables without those of the tracks.
abbrev pub feed_tables : IndexDb → IndexDb
feed_tables db = record db { tracks = []; payment_routes = []; splits = []; track_items = [] }

pub feed_tables-write_tracks :
    (p : IndexDb) (bs : List TrackIngestBundle) → feed_tables (write_tracks p bs) ≡ feed_tables p
unfolding write_tracks
feed_tables-write_tracks p [] = refl
feed_tables-write_tracks p (b ∷ rest) = feed_tables-write_tracks (write_track p b) rest

feed_tables-remove_track :
    (p : IndexDb) (g t : String) → feed_tables (remove_track p g t) ≡ feed_tables p
unfolding delete_track_sql
feed_tables-remove_track p g t = elim (Bool-cases (is_some (get_track_for_feed p.tracks g t))) [
  | inl e ↦ rw e refl
  | inr e ↦ rw e refl
]

pub feed_tables-remove_tracks :
    (p : IndexDb) (g : String) (ts : List String)
    → feed_tables (remove_tracks p g ts) ≡ feed_tables p
unfolding remove_tracks
feed_tables-remove_tracks p g [] = refl
feed_tables-remove_tracks p g (t ∷ ts) =
    feed_tables-remove_tracks (remove_track p g t) g ts ∙ feed_tables-remove_track p g t

pub feed_tables-removals :
    (feed : Feed) (r : IndexDb) (ts : List String)
    → feed_tables (apply_rows r (map (removal_event feed) ts)) ≡ feed_tables r
unfolding apply_rows apply_row_payload
feed_tables-removals feed r [] = refl
feed_tables-removals feed r (t ∷ ts) =
    feed_tables-removals feed (remove_track r feed.feed_guid t) ts
    ∙ feed_tables-remove_track r feed.feed_guid t

module _ (now : ℤ) (warnings : List String) where
  feed_tables-pushed :
      (r : IndexDb) (b : TrackIngestBundle) (changed items_changed : Bool)
      → feed_tables (apply_rows r (pushed now warnings b changed items_changed)) ≡ feed_tables r
  unfolding apply_rows apply_row_payload
  feed_tables-pushed r b true true = refl
  feed_tables-pushed r b true false = refl
  feed_tables-pushed r b false true = refl
  feed_tables-pushed r b false false = refl

  pub feed_tables-changed :
      (db r : IndexDb) (g : String) (bs : List TrackIngestBundle)
      → feed_tables (apply_rows r (changed_of_tracks now warnings db g bs)) ≡ feed_tables r
  unfolding changed_of_tracks
  feed_tables-changed db r g [] = unfold apply_rows in refl
  feed_tables-changed db r g (b ∷ rest) =
      let o = get_track_for_feed db.tracks g b.track.track_guid in
      let stored =
        get_track_remote_items_for_feed_track db.track_items b.track.feed_guid b.track.track_guid in
      ap feed_tables (
        apply_rows-append r (changed_of_track now warnings db b o)
          (changed_of_tracks now warnings db g rest))
      ∙ feed_tables-changed db (apply_rows r (changed_of_track now warnings db b o)) g rest
      ∙ ap (λ events. feed_tables (apply_rows r events)) (changed_of_track_lem now warnings db b o)
      ∙ feed_tables-pushed r b (track_test b o) (item_test b stored o)

  pub changed_of_tracks-new :
      (db : IndexDb) (g : String) (bs : List TrackIngestBundle)
      → ((t : String) → get_track_for_feed db.tracks g t ≡ none)
      → changed_of_tracks now warnings db g bs ≡ all_of_tracks now warnings bs
  unfolding changed_of_tracks all_of_tracks
  changed_of_tracks-new db g [] absent = refl
  changed_of_tracks-new db g (b ∷ rest) absent = rw (absent b.track.track_guid) (
      ap (λ events. all_of_track now warnings b ++ events) (changed_of_tracks-new db g rest absent))
