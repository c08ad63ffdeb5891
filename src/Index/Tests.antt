-- ===== src/Index/Tests.antt =====
-- The properties of Index on the sample node.
use stophammer.Common.{◌≡◌, refl, List, [], ◌∷◌, ◌++◌, map}
use stophammer.Common.Int.{pos}
use stophammer.Index.Compare.{track_fields_changed}
use stophammer.Index.Tracks.{get_track_for_feed}
use stophammer.Index.Events.{TrackIngestBundle}
use stophammer.Index.Diff.{build_diff_events, changed_of_tracks}
use stophammer.Common.{Option, none, some, String}
use stophammer.Index.Rows.{Track}
use stophammer.Index.Ingest.{write_tracks, ingest_transaction}
use stophammer.Index.Apply.{apply_rows}
use stophammer.Index.Kept.{has_track, ingest_transaction-tracks}
use stophammer.Index.Ingest.{is_submitted}
use stophammer.Index.Silent.{with_payment, changed_of_tracks-silent}
use stophammer.Index.Follow.SameRows.{Agree}
use stophammer.Index.Follow.Transaction.{ingest_transaction-Agree}
use stophammer.Index.Sample.{
  bundle, route_to, same_tables, replica_tables, stored_tables, stored_tables-HasNoOrphan,
  stored_tables-HasNoStray, submitted, submitted-IsProper,
}

ingest_transaction-Agree_example : Agree "f" (ingest_transaction stored_tables submitted).0 (
    apply_rows replica_tables (
      build_diff_events (pos 9) [] stored_tables submitted
      ++ (ingest_transaction stored_tables submitted).1))
ingest_transaction-Agree_example =
    ingest_transaction-Agree (pos 9) [] stored_tables replica_tables submitted submitted-IsProper
      stored_tables-HasNoOrphan stored_tables-HasNoStray same_tables

-- The events of this submission, by their subjects.
submitted_events :
    map
      (λ e. e.subject_guid)
      (build_diff_events (pos 9) [] stored_tables submitted
        ++ (ingest_transaction stored_tables submitted).1)
    ≡ "f" ∷ "f" ∷ "f" ∷ "t1" ∷ "t3" ∷ "t3" ∷ "t2" ∷ []
unfolding build_diff_events ingest_transaction
submitted_events = refl

abbrev kept : List TrackIngestBundle
kept = bundle "t1" "one" [] ∷ []

changed_of_tracks-silent_example :
    changed_of_tracks
      (pos 9)
      []
      stored_tables
      "f"
      (map (with_payment (λ b. route_to "b" ∷ []) (λ b. [])) kept)
    ≡ changed_of_tracks (pos 9) [] stored_tables "f" kept
unfolding get_track_for_feed track_fields_changed
changed_of_tracks-silent_example =
    changed_of_tracks-silent (pos 9) [] (λ b. route_to "b" ∷ []) (λ b. []) stored_tables "f" kept
      (refl, tt)

ingest_transaction-tracks_example :
    has_track (ingest_transaction stored_tables submitted).0 "f" "t2"
    ≡ is_submitted submitted.tracks "t2"
ingest_transaction-tracks_example =
    ingest_transaction-tracks stored_tables submitted "t2" (refl, (refl, tt))

-- A feed that names one track twice: the primary keeps the second title, a replica takes the first.
abbrev twice : List TrackIngestBundle
twice = bundle "t1" "other" [] ∷ bundle "t1" "one" [] ∷ []

abbrev title_of : Option Track → Option String
title_of none = none
title_of (some t) = some t.title

named_twice :
    (title_of (get_track_for_feed (write_tracks stored_tables twice).tracks "f" "t1") ≡ some "one")
    × (title_of (
          get_track_for_feed
            (apply_rows stored_tables (changed_of_tracks (pos 9) [] stored_tables "f" twice)).tracks
            "f"
            "t1")
        ≡ some "other")
unfolding write_tracks apply_rows changed_of_tracks
named_twice = (refl, refl)
