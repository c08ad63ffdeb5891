-- ===== src/Index/Kept.antt =====
-- Which tracks a feed has after an ingest (`ingest_transaction` of src/db.rs).
use stophammer.Common.{
  ◌≡◌, refl, sym, ap, subst, ◌∙◌, Bool, false, not, ◌&&◌, ◌||◌, Option, none, some, List, [], ◌∷◌,
  String, str_eq, eq_iff, any, select, All, is_some, Bool-cases, inl, inr, arith, if◌then◌else◌,
}
use stophammer.Index.Rows.{Track}
use stophammer.Index.Compare.{track_fields}
use stophammer.Index.Store.{rows_of}
use stophammer.Index.Tracks.{get_track_for_feed, upsert_track}
use stophammer.Index.Tables.{IndexDb, delete_track_sql}
use stophammer.Index.Events.{TrackIngestBundle, Submission}
use stophammer.Index.Ingest.{
  write_feed_rows, write_track, write_tracks, existing_guids, is_submitted, stale_guids,
  remove_tracks, ingest_transaction,
}
use stophammer.Index.Follow.FeedRow.{opt_fields}
use stophammer.Index.Follow.TrackRows.{track_view, delete_track_row-get}
use stophammer.Index.Follow.OneTrack.{own_view}
use stophammer.Index.Follow.AllTracks.{remove_track}

abbrev pub has_track : IndexDb → String → String → Bool
has_track db g t = is_some (get_track_for_feed db.tracks g t)

has_view : (o : Option Track) → is_some (opt_fields track_fields o) ≡ is_some o
has_view none = refl
has_view (some x) = refl

has_track-write_track :
    (p : IndexDb) (b : TrackIngestBundle) (g t : String)
    → b.track.feed_guid ≡ g
    → has_track (write_track p b) g t ≡ (str_eq b.track.track_guid t || has_track p g t)
has_track-write_track p b g t own =
    let at : track_view (upsert_track p.tracks b.track) g t ≡ (
        if str_eq b.track.track_guid t
        then some (track_fields b.track)
        else track_view p.tracks g t) =
      subst
        (λ x. track_view (upsert_track p.tracks b.track) x t ≡ (
          if str_eq b.track.track_guid t
          then some (track_fields b.track)
          else track_view p.tracks x t))
        own (own_view p.tracks b.track t) in
    sym (has_view (get_track_for_feed (upsert_track p.tracks b.track) g t))
    ∙ ap is_some at
    ∙ (elim (Bool-cases (str_eq b.track.track_guid t)) [
      | inl e ↦ rw e refl
      | inr e ↦ rw e (has_view (get_track_for_feed p.tracks g t))
    ])

has_track-write_tracks :
    (p : IndexDb) (bs : List TrackIngestBundle) (g t : String)
    → All (λ b. b.track.feed_guid ≡ g) bs
    → has_track (write_tracks p bs) g t ≡ (is_submitted bs t || has_track p g t)
unfolding write_tracks any
has_track-write_tracks p [] g t own = refl
has_track-write_tracks p (b ∷ rest) g t own =
    let first = has_track-write_track p b g t own.0 in
    let later = has_track-write_tracks (write_track p b) rest g t own.1 in ground arith

is_member : List String → String → Bool
unfolding any
is_member ts t = any (λ x. str_eq x t) ts

has_track-remove_track :
    (p : IndexDb) (g x t : String)
    → has_track (remove_track p g x) g t ≡ (has_track p g t && not (str_eq x t))
unfolding delete_track_sql
has_track-remove_track p g x t = elim (Bool-cases (is_some (get_track_for_feed p.tracks g x))) [
  | inl e ↦
      rw (e, delete_track_row-get p.tracks g x t)
        (elim (Bool-cases (str_eq x t)) [
          | inl same ↦ rw same (ground arith)
          | inr other ↦ rw other (ground arith)
        ])
  | inr e ↦ rw e (elim (Bool-cases (str_eq x t)) [
    | inl same ↦
        let absent : is_some (get_track_for_feed p.tracks g t) ≡ false =
          subst (λ k. is_some (get_track_for_feed p.tracks g k) ≡ false) ((eq_iff x t).0 same) e in
        rw (same, absent) refl
    | inr other ↦ rw other (ground arith)
  ])
]

has_track-remove_tracks :
    (p : IndexDb) (ts : List String) (g t : String)
    → has_track (remove_tracks p g ts) g t ≡ (has_track p g t && not (is_member ts t))
unfolding remove_tracks is_member any
has_track-remove_tracks p [] g t = ground arith
has_track-remove_tracks p (x ∷ ts) g t =
    let first = has_track-remove_track p g x t in
    let later = has_track-remove_tracks (remove_track p g x) ts g t in ground arith

existing-member :
    (tracks : List Track) (g t : String)
    → is_member (existing_guids tracks g) t ≡ is_some (get_track_for_feed tracks g t)
unfolding is_member any existing_guids rows_of select get_track_for_feed
existing-member [] g t = refl
existing-member (h ∷ rest) g t = let later = existing-member rest g t in ground arith

select-member :
    (keep : String → Bool) (ts : List String) (t : String)
    → is_member (select keep ts) t ≡ (is_member ts t && keep t)
unfolding is_member any select
select-member keep [] t = refl
select-member keep (x ∷ ts) t =
    let later = select-member keep ts t in
    elim (Bool-cases (str_eq x t)) [
      | inl e ↦ let same : keep x ≡ keep t = ap keep ((eq_iff x t).0 e) in ground arith
      | inr e ↦ ground arith
    ]

stale-member :
    (db : IndexDb) (s : Submission) (t : String)
    → is_member (stale_guids db s) t
      ≡ (has_track db s.feed.feed_guid t && not (is_submitted s.tracks t))
unfolding stale_guids
stale-member db s t =
    select-member (λ x. not (is_submitted s.tracks x)) (existing_guids db.tracks s.feed.feed_guid) t
    ∙ ap (λ b. b && not (is_submitted s.tracks t)) (existing-member db.tracks s.feed.feed_guid t)

-- After the transaction the feed has exactly the tracks of the submission, where these name the feed.
pub ingest_transaction-tracks :
    (db : IndexDb) (s : Submission) (t : String)
    → All (λ b. b.track.feed_guid ≡ s.feed.feed_guid) s.tracks
    → has_track (ingest_transaction db s).0 s.feed.feed_guid t ≡ is_submitted s.tracks t
unfolding ingest_transaction write_feed_rows
ingest_transaction-tracks db s t own =
    let g = s.feed.feed_guid in
    let kept : has_track (ingest_transaction db s).0 g t ≡ (
        has_track (write_tracks (write_feed_rows db s) s.tracks) g t
        && not (is_member (stale_guids db s) t)) =
      has_track-remove_tracks (write_tracks (write_feed_rows db s) s.tracks) (stale_guids db s) g
        t in
    let written : has_track (write_tracks (write_feed_rows db s) s.tracks) g t
        ≡ (is_submitted s.tracks t || has_track db g t) =
      has_track-write_tracks (write_feed_rows db s) s.tracks g t own in
    let stale : is_member (stale_guids db s) t
        ≡ (has_track db g t && not (is_submitted s.tracks t)) =
      stale-member db s t in
    kept ∙ rw (written, stale) (ground arith)
