-- ===== src/Index/Silent.antt =====
-- Which parts of a track no event of an ingest carries (`build_changed_events` of src/db.rs).
use stophammer.Common.{
  ◌≡◌, refl, ap, ◌∙◌, false, Option, none, some, List, [], ◌∷◌, ◌++◌, String, map, All,
}
use stophammer.Common.Int.{ℤ}
use stophammer.Index.Rows.{Track, PaymentRoute}
use stophammer.Index.Splits.{ValueTimeSplit}
use stophammer.Index.Compare.{track_fields_changed}
use stophammer.Index.Tracks.{get_track_for_feed}
use stophammer.Index.Tables.{IndexDb}
use stophammer.Index.Events.{TrackIngestBundle}
use stophammer.Index.Diff.{changed_of_track, changed_of_tracks}

-- The track with other payment routes and value time splits.
abbrev pub with_payment :
    (TrackIngestBundle → List PaymentRoute)
    → (TrackIngestBundle → List ValueTimeSplit)
    → TrackIngestBundle
    → TrackIngestBundle
with_payment routes splits b = record b { routes = routes b; splits = splits b }

-- The stored row of a track has the fields of the submitted one.
abbrev IsUnchangedAs : Track → Option Track → Type 0
IsUnchangedAs track none = ⊥
IsUnchangedAs track (some existing) = track_fields_changed existing track ≡ false

abbrev pub IsUnchanged : IndexDb → String → TrackIngestBundle → Type 0
IsUnchanged db guid b = IsUnchangedAs b.track (get_track_for_feed db.tracks guid b.track.track_guid)

module _ (now : ℤ) (warnings : List String) (routes : TrackIngestBundle → List PaymentRoute)
    (splits : TrackIngestBundle → List ValueTimeSplit) where
  one_track_silent :
      (db : IndexDb) (b : TrackIngestBundle) (o : Option Track)
      → IsUnchangedAs b.track o
      → changed_of_track now warnings db (with_payment routes splits b) o
        ≡ changed_of_track now warnings db b o
  one_track_silent db b none h = absurd h
  one_track_silent db b (some existing) h = rw h refl

  -- Where every submitted track is stored with the fields that are compared, the events on the tracks do not
  -- depend on their payment routes and value time splits: a change of those gives no event.
  pub changed_of_tracks-silent :
      (db : IndexDb) (guid : String) (bs : List TrackIngestBundle)
      → All (IsUnchanged db guid) bs
      → changed_of_tracks now warnings db guid (map (with_payment routes splits) bs)
        ≡ changed_of_tracks now warnings db guid bs
  unfolding changed_of_tracks
  changed_of_tracks-silent db guid [] h = refl
  changed_of_tracks-silent db guid (b ∷ rest) h =
      ap
        (λ events.
          events ++ changed_of_tracks now warnings db guid (map (with_payment routes splits) rest))
        (one_track_silent db b (get_track_for_feed db.tracks guid b.track.track_guid) h.0)
      ∙ ap
          (λ events.
            changed_of_track now warnings db b
              (get_track_for_feed db.tracks guid b.track.track_guid)
            ++ events)
          (changed_of_tracks-silent db guid rest h.1)
