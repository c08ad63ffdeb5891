-- ===== src/Quality/Tests.antt =====
-- The scores on the sample node of Index.
use stophammer.Common.{◌≡◌, ◌≤◌, ◌↔◌, refl, true, is_some, any}
use stophammer.Index.Tracks.{get_feed_by_guid, get_track_for_feed}
use stophammer.Index.Sample.{stored_tables}
use stophammer.Quality.Score.{
  feed_points, track_points, has_track, has_route, has_route_of, has_split_of, sum_points,
  compute_feed_quality, compute_track_quality_for_feed_track,
}
use stophammer.Quality.Bounds.{AreMet, compute_feed_quality-bounds, compute_track_quality-bounds}

feed_score : compute_feed_quality stored_tables "f" ≡ 45
unfolding compute_feed_quality has_track has_route any sum_points get_feed_by_guid
feed_score = refl

track_score : compute_track_quality_for_feed_track stored_tables "f" "t1" ≡ 40
unfolding compute_track_quality_for_feed_track has_route_of has_split_of any sum_points
    get_track_for_feed get_feed_by_guid
track_score = refl

compute_feed_quality-bounds_example :
    (compute_feed_quality stored_tables "f" ≤ 100)
    × ((compute_feed_quality stored_tables "f" ≡ 100) ↔ (
        (is_some (get_feed_by_guid stored_tables.feeds "f") ≡ true)
        × AreMet (feed_points stored_tables "f")))
compute_feed_quality-bounds_example = compute_feed_quality-bounds stored_tables "f"

compute_track_quality-bounds_example :
    (compute_track_quality_for_feed_track stored_tables "f" "t1" ≤ 100)
    × ((compute_track_quality_for_feed_track stored_tables "f" "t1" ≡ 100) ↔ (
        (is_some (get_track_for_feed stored_tables.tracks "f" "t1") ≡ true)
        × AreMet (track_points stored_tables "f" "t1")))
compute_track_quality-bounds_example = compute_track_quality-bounds stored_tables "f" "t1"
