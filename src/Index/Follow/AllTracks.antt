-- ===== src/Index/Follow/AllTracks.antt =====
-- The tracks of a submission, one after the other, and the removal of those that it leaves out
-- (src/db.rs, src/apply.rs).
use stophammer.Common.{
  ◌≡◌, refl, sym, subst, ◌∙◌, true, false, Option, none, some, List, [], ◌∷◌, ◌++◌, String, str_eq,
  map, All, is_some, Bool-cases, inl, inr, if◌then◌else◌,
}
use stophammer.Common.Int.{ℤ}
use stophammer.Index.Rows.{Feed, Track}
use stophammer.Index.Compare.{track_fields, track_remote_item_fields}
use stophammer.Index.Tracks.{
  get_track_for_feed, upsert_track, replace_track_remote_items_raw_for_feed_track,
  get_track_remote_items_for_feed_track,
}
use stophammer.Index.Tables.{IndexDb, delete_track_sql}
use stophammer.Index.Events.{EventRow, TrackIngestBundle}
use stophammer.Index.Diff.{changed_of_track, changed_of_tracks}
use stophammer.Index.Ingest.{write_track, write_tracks, remove_tracks, removal_event}
use stophammer.Index.Apply.{apply_row_payload, apply_rows}
use stophammer.Index.Follow.FeedRow.{opt_fields}
use stophammer.Index.Follow.TrackRows.{
  track_view, item_view, replaced-view, AreOwn, delete_track_row-get, deleted-view,
}
use stophammer.Index.Follow.OneTrack.{
  TracksAgree, HasNoOrphan, track_test, item_test, track_test_sound, item_test_sound, after_track,
  changed_of_track_lem, track-step, own_view,
}

pub apply_rows-append :
    (r : IndexDb) (xs ys : List EventRow)
    → apply_rows r (xs ++ ys) ≡ apply_rows (apply_rows r xs) ys
unfolding apply_rows
apply_rows-append r [] ys = refl
apply_rows-append r (x ∷ xs) ys = apply_rows-append (apply_row_payload r x.payload) xs ys

-- No GUID of a track twice.
abbrev pub AreDistinct : List TrackIngestBundle → Type 0
AreDistinct [] = Unit
AreDistinct (b ∷ rest) =
    All (λ c. str_eq b.track.track_guid c.track.track_guid ≡ false) rest × AreDistinct rest

-- A track of the feed, with items of its own.
abbrev pub IsOfFeed : String → TrackIngestBundle → Type 0
IsOfFeed g b = (b.track.feed_guid ≡ g) × AreOwn g b.remote_items

-- What the primary held of a track before the submission it holds still.
abbrev pub IsAsStored : String → IndexDb → IndexDb → TrackIngestBundle → Type 0
IsAsStored g db p b =
    (track_view p.tracks g b.track.track_guid ≡ track_view db.tracks g b.track.track_guid)
    × (item_view p.track_items g b.track.track_guid ≡ item_view db.track_items g b.track.track_guid)

IsAsStored-write_track :
    (g : String) (db p : IndexDb) (b : TrackIngestBundle) (rest : List TrackIngestBundle)
    → b.track.feed_guid ≡ g
    → All (λ c. str_eq b.track.track_guid c.track.track_guid ≡ false) rest
    → All (IsAsStored g db p) rest
    → All (IsAsStored g db (write_track p b)) rest
IsAsStored-write_track g db p b [] e other stored = tt
IsAsStored-write_track g db p b (c ∷ rest) e other stored =
    let track : track_view (upsert_track p.tracks b.track) g c.track.track_guid
        ≡ track_view p.tracks g c.track.track_guid =
      subst
        (λ x.
          track_view (upsert_track p.tracks b.track) x c.track.track_guid
          ≡ track_view p.tracks x c.track.track_guid)
        e (own_view p.tracks b.track c.track.track_guid ∙ rw other.0 refl) in
    let items : item_view
          (replace_track_remote_items_raw_for_feed_track p.track_items b.track.feed_guid
            b.track.track_guid b.remote_items)
          g c.track.track_guid
        ≡ item_view p.track_items g c.track.track_guid =
      subst
        (λ x.
          item_view
            (replace_track_remote_items_raw_for_feed_track p.track_items b.track.feed_guid
              b.track.track_guid b.remote_items)
            x c.track.track_guid
          ≡ item_view p.track_items x c.track.track_guid)
        e
        (replaced-view p.track_items b.track.feed_guid b.track.track_guid c.track.track_guid
            b.remote_items
          ∙ rw other.0 refl) in
    (
      (track ∙ stored.0.0, items ∙ stored.0.1),
      IsAsStored-write_track g db p b rest e other.1 stored.1,
    )

module _ (now : ℤ) (warnings : List String) (g : String) (db : IndexDb)
    (orphan : HasNoOrphan g db) where
  one-follows :
      (p r : IndexDb) (b : TrackIngestBundle)
      → IsOfFeed g b
      → IsAsStored g db p b
      → TracksAgree g p r
      → TracksAgree g (write_track p b) (
          apply_rows r (
            changed_of_track now warnings db b (get_track_for_feed db.tracks g b.track.track_guid)))
  one-follows p r b of_feed stored agree =
      let t = b.track.track_guid in
      let o = get_track_for_feed db.tracks g t in
      let items = λ (x : String). get_track_remote_items_for_feed_track db.track_items x t in
      let changed = track_test b o in
      let items_changed = item_test b (items b.track.feed_guid) o in
      let step =
        subst
          (λ x.
            TracksAgree x p r
            → AreOwn x b.remote_items
            → (changed ≡ false → track_view p.tracks x t ≡ some (track_fields b.track))
            → (items_changed ≡ false
                → item_view p.track_items x t ≡ map track_remote_item_fields b.remote_items)
            → TracksAgree x (write_track p b) (after_track now warnings r b changed items_changed))
          of_feed.0 (track-step now warnings p r b changed items_changed) in
      let quiet : changed ≡ false → track_view p.tracks g t ≡ some (track_fields b.track) =
        λ h. stored.0 ∙ track_test_sound b o h in
      let items_quiet : items_changed ≡ false
          → item_view p.track_items g t ≡ map track_remote_item_fields b.remote_items =
        λ h.
          stored.1
          ∙ item_test_sound b (items g) o (orphan t)
              (subst (λ x. item_test b (items x) o ≡ false) of_feed.0 h) in
      subst (λ events. TracksAgree g (write_track p b) (apply_rows r events))
        (sym (changed_of_track_lem now warnings db b o)) (step agree of_feed.1 quiet items_quiet)

  pub tracks-follow :
      (p r : IndexDb) (bs : List TrackIngestBundle)
      → All (IsOfFeed g) bs
      → AreDistinct bs
      → All (IsAsStored g db p) bs
      → TracksAgree g p r
      → TracksAgree g (write_tracks p bs) (apply_rows r (changed_of_tracks now warnings db g bs))
  unfolding write_tracks apply_rows changed_of_tracks
  tracks-follow p r [] own distinct stored agree = agree
  tracks-follow p r (b ∷ rest) own distinct stored agree =
      subst (TracksAgree g (write_tracks (write_track p b) rest))
        (sym (
          apply_rows-append r
            (changed_of_track now warnings db b (get_track_for_feed db.tracks g b.track.track_guid))
            (changed_of_tracks now warnings db g rest)))
        (tracks-follow (write_track p b)
          (apply_rows r (
            changed_of_track now warnings db b (get_track_for_feed db.tracks g b.track.track_guid)))
          rest own.1 distinct.1 (IsAsStored-write_track g db p b rest own.0.0 distinct.0 stored.1)
          (one-follows p r b own.0 stored.0 agree))

view_some :
    (a c : Option Track)
    → opt_fields track_fields a ≡ opt_fields track_fields c
    → is_some a ≡ is_some c
view_some none none e = refl
view_some none (some d) e = cc
view_some (some b) none e = cc
view_some (some b) (some d) e = refl

removed-follow :
    (g : String) (p r : IndexDb) (t : String)
    → TracksAgree g p r
    → TracksAgree g (delete_track_sql p g t) (delete_track_sql r g t)
unfolding delete_track_sql
removed-follow g p r t agree = (
  λ u.
      rw (delete_track_row-get p.tracks g t u, delete_track_row-get r.tracks g t u)
        (elim (Bool-cases (str_eq t u)) [ inl e ↦ rw e refl | inr e ↦ rw e (agree.0 u) ]),
  λ u.
      rw (deleted-view p.track_items g t u, deleted-view r.track_items g t u)
        (elim (Bool-cases (str_eq t u)) [ inl e ↦ rw e refl | inr e ↦ rw e (agree.1 u) ]),
)

-- The deletion of one track, guarded as in the code.
abbrev pub remove_track : IndexDb → String → String → IndexDb
remove_track db g t =
    if is_some (get_track_for_feed db.tracks g t) then delete_track_sql db g t else db

remove-follow :
    (g : String) (p r : IndexDb) (t : String)
    → TracksAgree g p r
    → TracksAgree g (remove_track p g t) (remove_track r g t)
remove-follow g p r t agree =
    let same : is_some (get_track_for_feed p.tracks g t)
        ≡ is_some (get_track_for_feed r.tracks g t) =
      view_some (get_track_for_feed p.tracks g t) (get_track_for_feed r.tracks g t) (agree.0 t) in
    elim (Bool-cases (is_some (get_track_for_feed p.tracks g t))) [
      | inl e ↦
          let there : is_some (get_track_for_feed r.tracks g t) ≡ true = sym same ∙ e in
          rw (e, there) (removed-follow g p r t agree)
      | inr e ↦
          let absent : is_some (get_track_for_feed r.tracks g t) ≡ false = sym same ∙ e in
          rw (e, absent) agree
    ]

pub removals-follow :
    (feed : Feed) (p r : IndexDb) (ts : List String)
    → TracksAgree feed.feed_guid p r
    → TracksAgree feed.feed_guid
        (remove_tracks p feed.feed_guid ts)
        (apply_rows r (map (removal_event feed) ts))
unfolding remove_tracks apply_rows apply_row_payload
removals-follow feed p r [] agree = agree
removals-follow feed p r (t ∷ ts) agree =
    removals-follow feed (remove_track p feed.feed_guid t) (remove_track r feed.feed_guid t) ts
      (remove-follow feed.feed_guid p r t agree)
