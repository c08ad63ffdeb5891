-- ===== src/Quality/Score.antt =====
-- The two scores of src/quality.rs and the table `entity_quality`. Each test of the source stands with the
-- points that it adds; the sum of an i64 stays far from its bounds. SQL statements are taken to succeed, and
-- the `computed_at` column, which nothing reads, is left out.
use stophammer.Common.{
  ℕ, ◌+◌, Bool, false, not, ◌&&◌, ◌||◌, Option, none, some, List, [], ◌∷◌, String, str_eq, any,
  is_some, if◌then◌else◌,
}
use stophammer.Common.Int.{ℤ, pos, ltb_ℤ}
use stophammer.Common.Text.{is_empty}
use stophammer.Index.Rows.{Feed, Track}
use stophammer.Index.Splits.{ValueTimeSplit, is_of_track}
use stophammer.Index.Tracks.{get_feed_by_guid, get_track_for_feed}
use stophammer.Index.Tables.{IndexDb}

abbrev pub is_filled : Option String → Bool
is_filled none = false
is_filled (some s) = not (is_empty s)

abbrev pub is_positive : Option ℤ → Bool
is_positive none = false
is_positive (some n) = ltb_ℤ (pos 0) n

-- The sum of the points whose test holds.
unfoldable pub sum_points : List (Bool × ℕ) → ℕ
sum_points [] = 0
sum_points ((test, points) ∷ rest) = (if test then points else 0) + sum_points rest

abbrev pub feed_field_points : Option Feed → List (Bool × ℕ) → List (Bool × ℕ)
feed_field_points none later = later
feed_field_points (some f) later =
    (not (is_empty f.title), 10)
    ∷ (is_filled f.description, 15)
    ∷ (is_some f.image_url, 15)
    ∷ (is_some f.language, 5)
    ∷ (ltb_ℤ (pos 0) f.episode_count, 5)
    ∷ (is_filled f.release_artist, 10)
    ∷ (is_some f.newest_item_at, 5)
    ∷ (f.explicit, 5)
    ∷ (is_some f.itunes_type, 5)
    ∷ later

unfoldable pub has_track : IndexDb → String → Bool
unfolding any
has_track db feed_guid = any (λ t. str_eq t.feed_guid feed_guid) db.tracks

unfoldable pub has_route : IndexDb → String → Bool
unfolding any
has_route db feed_guid =
    any (λ r. str_eq r.feed_guid feed_guid) db.feed_routes
    || any (λ r. str_eq r.feed_guid feed_guid) db.payment_routes

abbrev pub feed_points : IndexDb → String → List (Bool × ℕ)
feed_points db feed_guid =
    feed_field_points (get_feed_by_guid db.feeds feed_guid)
      ((has_track db feed_guid, 10) ∷ (has_route db feed_guid, 15) ∷ [])

unfoldable pub compute_feed_quality : IndexDb → String → ℕ
unfolding sum_points get_feed_by_guid has_track has_route
compute_feed_quality db feed_guid = sum_points (feed_points db feed_guid)

abbrev pub release_artist_of : Option Feed → Option String
release_artist_of none = none
release_artist_of (some f) = f.release_artist

abbrev pub track_field_points : Option Track → Option Feed → List (Bool × ℕ) → List (Bool × ℕ)
track_field_points none feed later = later
track_field_points (some t) feed later =
    (not (is_empty t.title), 10)
    ∷ (is_some t.enclosure_url, 15)
    ∷ (is_some t.enclosure_type, 5)
    ∷ (is_positive t.duration_secs, 10)
    ∷ (is_some t.pub_date, 5)
    ∷ (is_filled t.description, 10)
    ∷ (is_filled t.track_artist || is_filled (release_artist_of feed), 5)
    ∷ (is_some t.track_number, 5)
    ∷ (is_some t.season, 5)
    ∷ later

unfoldable pub has_route_of : IndexDb → String → String → Bool
unfolding any
has_route_of db feed_guid track_guid =
    any (λ r. str_eq r.feed_guid feed_guid && str_eq r.track_guid track_guid) db.payment_routes

unfoldable pub has_split_of : IndexDb → String → String → Bool
unfolding any
has_split_of db feed_guid track_guid =
    any
      (λ (r : Option String × ValueTimeSplit).
        is_of_track feed_guid track_guid r.0 r.1.source_track_guid)
      db.splits

abbrev pub track_points : IndexDb → String → String → List (Bool × ℕ)
track_points db feed_guid track_guid =
    track_field_points (get_track_for_feed db.tracks feed_guid track_guid)
      (get_feed_by_guid db.feeds feed_guid)
      ((has_route_of db feed_guid track_guid, 20) ∷ (has_split_of db feed_guid track_guid, 10) ∷ [])

unfoldable pub compute_track_quality_for_feed_track : IndexDb → String → String → ℕ
unfolding sum_points get_feed_by_guid get_track_for_feed has_route_of has_split_of
compute_track_quality_for_feed_track db feed_guid track_guid =
    sum_points (track_points db feed_guid track_guid)

pub record QualityRow : Type 0 where
  pub entity_type : String
  pub entity_id : String
  pub score : ℕ

abbrev is_entity : String → String → QualityRow → Bool
is_entity entity_type entity_id r = str_eq r.entity_type entity_type && str_eq r.entity_id entity_id

-- INSERT .. ON CONFLICT(entity_type, entity_id) DO UPDATE.
unfoldable pub store_quality : List QualityRow → String → String → ℕ → List QualityRow
store_quality [] entity_type entity_id score =
    record { entity_type = entity_type; entity_id = entity_id; score = score } ∷ []
store_quality (r ∷ rest) entity_type entity_id score =
    if is_entity entity_type entity_id r
    then record r { score = score } ∷ rest
    else r ∷ store_quality rest entity_type entity_id score

unfoldable pub get_quality : List QualityRow → String → String → ℕ
get_quality [] entity_type entity_id = 0
get_quality (r ∷ rest) entity_type entity_id =
    if is_entity entity_type entity_id r then r.score else get_quality rest entity_type entity_id
