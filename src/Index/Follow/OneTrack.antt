-- ===== src/Index/Follow/OneTrack.antt =====
-- One track of a submission on the primary and on a replica (src/db.rs, src/apply.rs).
use stophammer.Common.{
  ◌≡◌, refl, sym, ap, ◌∙◌, Bool, true, false, not, ◌||◌, Option, none, some, List, [], ◌∷◌, ◌++◌,
  String, str_eq, eq_iff, eq_refl, map, Bool-cases, inl, inr, arith, if◌then◌else◌,
}
use stophammer.Common.Int.{ℤ}
use stophammer.Common.Cells.{cells_eq_iff}
use stophammer.Index.Rows.{Track, TrackRemoteItemRaw}
use stophammer.Index.Compare.{
  track_fields, track_remote_item_fields, track_fields_changed, track_remote_items_changed,
}
use stophammer.Index.Tracks.{
  get_track_for_feed, upsert_track, replace_track_remote_items_raw_for_feed_track,
  get_track_remote_items_for_feed_track,
}
use stophammer.Index.Tables.{IndexDb}
use stophammer.Index.Events.{
  EventRow, TrackIngestBundle, build_track_upserted_event, build_track_remote_items_event,
}
use stophammer.Index.Diff.{is_nil, push_if, changed_of_track}
use stophammer.Index.Ingest.{write_track}
use stophammer.Index.Apply.{apply_row_payload, apply_rows}
use stophammer.Index.TableLaws.{rows_changed_sound}
use stophammer.Index.Follow.FeedRow.{opt_fields}
use stophammer.Index.Follow.TrackRows.{
  track_view, item_view, upsert_track-view, replaced-view, written-same, AreOwn,
}

-- The tracks of one feed on two nodes.
abbrev pub TracksAgree : String → IndexDb → IndexDb → Type 0
TracksAgree f p r =
    ((t : String) → track_view p.tracks f t ≡ track_view r.tracks f t)
    × ((t : String) → item_view p.track_items f t ≡ item_view r.track_items f t)

-- A track that is not stored has no items. A foreign key of the schema says so for the rows with a feed
-- GUID; that no row without one names the track is a condition of its own, which no key says.
abbrev pub HasNoOrphan : String → IndexDb → Type 0
HasNoOrphan f db =
    (t : String)
    → get_track_for_feed db.tracks f t ≡ none
    → get_track_remote_items_for_feed_track db.track_items f t ≡ []

-- The tests for the two events of a track.
abbrev pub track_test : TrackIngestBundle → Option Track → Bool
track_test b none = true
track_test b (some existing) = track_fields_changed existing b.track

abbrev pub item_test : TrackIngestBundle → List TrackRemoteItemRaw → Option Track → Bool
item_test b stored none = not (is_nil b.remote_items)
item_test b stored (some existing) =
    if track_fields_changed existing b.track
    then not (is_nil b.remote_items) || not (is_nil stored)
    else track_remote_items_changed stored b.remote_items

nil_lem {ℓ} : {A : Type ℓ} (xs : List A) → not (is_nil xs) ≡ false → xs ≡ []
nil_lem [] h = refl
nil_lem (x ∷ xs) h = cc

pub true_of_not : (b : Bool) → not b ≡ false → b ≡ true
true_of_not true h = refl
true_of_not false h = cc

pub track_test_sound :
    (b : TrackIngestBundle) (o : Option Track)
    → track_test b o ≡ false
    → opt_fields track_fields o ≡ some (track_fields b.track)
unfolding track_fields_changed
track_test_sound b none h = cc
track_test_sound b (some existing) h =
    ap some ((cells_eq_iff (track_fields existing) (track_fields b.track)).0 (true_of_not _ h))

pub item_test_sound :
    (b : TrackIngestBundle) (stored : List TrackRemoteItemRaw) (o : Option Track)
    → (o ≡ none → stored ≡ [])
    → item_test b stored o ≡ false
    → map track_remote_item_fields stored ≡ map track_remote_item_fields b.remote_items
unfolding track_remote_items_changed
item_test_sound b stored none orphan h = rw (orphan refl, nil_lem b.remote_items h) refl
item_test_sound b stored (some existing) orphan h =
    elim (Bool-cases (track_fields_changed existing b.track)) [
      | inl e ↦
          let test : (not (is_nil b.remote_items) || not (is_nil stored)) ≡ false = rw e at h in
          rw (nil_lem b.remote_items (ground arith), nil_lem stored (ground arith)) refl
      | inr e ↦ rows_changed_sound track_remote_item_fields stored b.remote_items (rw e at h)
    ]

pub own_view :
    (tracks : List Track) (b : Track) (t : String)
    → track_view (upsert_track tracks b) b.feed_guid t
      ≡ (if str_eq b.track_guid t then some (track_fields b) else track_view tracks b.feed_guid t)
own_view tracks b t = upsert_track-view tracks b b.feed_guid t ∙ rw eq_refl refl

track-follows :
    (p r : List Track) (b : Track) (test : Bool)
    → ((t : String) → track_view p b.feed_guid t ≡ track_view r b.feed_guid t)
    → (test ≡ false → track_view p b.feed_guid b.track_guid ≡ some (track_fields b))
    → (t : String)
    → track_view (upsert_track p b) b.feed_guid t
      ≡ track_view (if test then upsert_track r b else r) b.feed_guid t
track-follows p r b true agree quiet t =
    rw (own_view p b t, own_view r b t)
      (elim (Bool-cases (str_eq b.track_guid t)) [ inl e ↦ rw e refl | inr e ↦ rw e (agree t) ])
track-follows p r b false agree quiet t =
    rw (own_view p b t) (elim (Bool-cases (str_eq b.track_guid t)) [
      | inl e ↦ rw e (
          sym (quiet refl)
          ∙ agree b.track_guid
          ∙ ap (track_view r b.feed_guid) ((eq_iff b.track_guid t).0 e))
      | inr e ↦ rw e (agree t)
    ])

module _ (f t : String) (items : List TrackRemoteItemRaw) where
  items-follow :
      (p r : List (Option String × TrackRemoteItemRaw)) (test : Bool)
      → AreOwn f items
      → ((u : String) → item_view p f u ≡ item_view r f u)
      → (test ≡ false → item_view p f t ≡ map track_remote_item_fields items)
      → (u : String)
      → item_view (replace_track_remote_items_raw_for_feed_track p f t items) f u
        ≡ item_view
            (if test then replace_track_remote_items_raw_for_feed_track r f t items else r)
            f
            u
  items-follow p r true own agree quiet u =
      rw (replaced-view p f t u items, replaced-view r f t u items)
        (elim (Bool-cases (str_eq t u)) [ inl e ↦ rw e refl | inr e ↦ rw e (agree u) ])
  items-follow p r false own agree quiet u =
      rw (replaced-view p f t u items) (elim (Bool-cases (str_eq t u)) [
        | inl e ↦ rw e (
            written-same p f t items own (quiet refl)
            ∙ agree t
            ∙ ap (item_view r f) ((eq_iff t u).0 e))
        | inr e ↦ rw e (agree u)
      ])

module _ (now : ℤ) (warnings : List String) where
  abbrev pub pushed : TrackIngestBundle → Bool → Bool → List EventRow
  pushed b changed items_changed =
      push_if changed (build_track_upserted_event now warnings b)
      ++ push_if items_changed (build_track_remote_items_event now warnings b.track b.remote_items)

  pub changed_of_track_lem :
      (db : IndexDb) (b : TrackIngestBundle) (o : Option Track)
      → changed_of_track now warnings db b o
        ≡ pushed b (track_test b o) (
            item_test b
              (get_track_remote_items_for_feed_track db.track_items b.track.feed_guid
                b.track.track_guid)
              o)
  changed_of_track_lem db b none = refl
  changed_of_track_lem db b (some existing) =
      elim (Bool-cases (track_fields_changed existing b.track)) [
        | inl e ↦ rw e refl
        | inr e ↦ rw e refl
      ]

  -- The replica after the events of one track.
  abbrev pub after_track : IndexDb → TrackIngestBundle → Bool → Bool → IndexDb
  after_track r b changed items_changed = apply_rows r (pushed b changed items_changed)

  pub after_track-view :
      (r : IndexDb) (b : TrackIngestBundle) (changed items_changed : Bool)
      → let f = b.track.feed_guid in
        let t = b.track.track_guid in
        ((after_track r b changed items_changed).tracks
          ≡ (if changed then upsert_track r.tracks b.track else r.tracks))
        × ((after_track r b changed items_changed).track_items ≡ (
            if items_changed
            then replace_track_remote_items_raw_for_feed_track r.track_items f t b.remote_items
            else r.track_items))
  unfolding apply_rows apply_row_payload
  after_track-view r b true true = (refl, refl)
  after_track-view r b true false = (refl, refl)
  after_track-view r b false true = (refl, refl)
  after_track-view r b false false = (refl, refl)

  -- The step of one track: `p` and `r` agree, and `stored` is what the primary holds of this track.
  pub track-step :
      (p r : IndexDb) (b : TrackIngestBundle) (changed items_changed : Bool)
      → TracksAgree b.track.feed_guid p r
      → AreOwn b.track.feed_guid b.remote_items
      → (changed ≡ false
          → track_view p.tracks b.track.feed_guid b.track.track_guid ≡ some (track_fields b.track))
      → (items_changed ≡ false
          → item_view p.track_items b.track.feed_guid b.track.track_guid
            ≡ map track_remote_item_fields b.remote_items)
      → TracksAgree b.track.feed_guid (write_track p b) (after_track r b changed items_changed)
  track-step p r b changed items_changed agree own quiet items_quiet = (
    λ t.
        track-follows p.tracks r.tracks b.track changed agree.0 quiet t
        ∙ ap (λ tracks. track_view tracks b.track.feed_guid t)
            (sym (after_track-view r b changed items_changed).0),
    λ t.
        items-follow b.track.feed_guid b.track.track_guid b.remote_items p.track_items r.track_items
          items_changed own agree.1 items_quiet t
        ∙ ap (λ rows. item_view rows b.track.feed_guid t)
            (sym (after_track-view r b changed items_changed).1),
  )
