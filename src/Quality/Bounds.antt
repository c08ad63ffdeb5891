-- ===== src/Quality/Bounds.antt =====
-- The range of the scores of src/quality.rs.
use stophammer.Common.{
  ℕ, ◌+◌, ◌≤◌, ◌≡◌, ◌↔◌, refl, sym, subst, ◌∙◌, is_some, Bool, true, false, ◌&&◌, Option, none,
  some, List, [], ◌∷◌, String, str_eq, eq_iff, All, arith, if◌then◌else◌,
}
use stophammer.Index.Rows.{Feed, Track}
use stophammer.Index.Tracks.{get_feed_by_guid, get_track_for_feed}
use stophammer.Index.Tables.{IndexDb}
use stophammer.Quality.Score.{
  sum_points, feed_field_points, track_field_points, feed_points, track_points, has_track,
  has_route, has_route_of, has_split_of, compute_feed_quality, compute_track_quality_for_feed_track,
  QualityRow, store_quality, get_quality,
}

abbrev pub total : List (Bool × ℕ) → ℕ
total [] = 0
total ((test, points) ∷ rest) = points + total rest

abbrev pub AreMet : List (Bool × ℕ) → Type 0
AreMet tests = All (λ (x : Bool × ℕ). x.0 ≡ true) tests

-- Every test adds at least one point.
abbrev AreCounted : List (Bool × ℕ) → Type 0
AreCounted tests = All (λ (x : Bool × ℕ). 1 ≤ x.1) tests

sum_points-le : (tests : List (Bool × ℕ)) → sum_points tests ≤ total tests
unfolding sum_points
sum_points-le [] = ground arith
sum_points-le ((test, points) ∷ rest) = ground (arith, sum_points-le rest)

sum_points-met : (tests : List (Bool × ℕ)) → AreMet tests → sum_points tests ≡ total tests
unfolding sum_points
sum_points-met [] met = refl
sum_points-met ((test, points) ∷ rest) met = ground (arith, sum_points-met rest met.1, met.0)

apart : false ≡ true → ⊥
apart e = cc

met_of_sum :
    (tests : List (Bool × ℕ)) → AreCounted tests → sum_points tests ≡ total tests → AreMet tests
unfolding sum_points
met_of_sum [] counted e = tt
met_of_sum ((true, points) ∷ rest) counted e = (refl, met_of_sum rest counted.1 (omega arith))
met_of_sum ((false, points) ∷ rest) counted e =
    let le = sum_points-le rest in let one = counted.0 in absurd (omega arith)

-- A list of tests that is worth 100.
abbrev IsFull : ℕ → Bool → List (Bool × ℕ) → Type 0
IsFull score there tests = (score ≤ 100) × ((score ≡ 100) ↔ ((there ≡ true) × AreMet tests))

worth_100 :
    (tests : List (Bool × ℕ))
    → AreCounted tests
    → total tests ≡ 100
    → IsFull (sum_points tests) true tests
worth_100 tests counted h = (
  subst (λ n. sum_points tests ≤ n) h (sum_points-le tests),
  (λ e. (refl, met_of_sum tests counted (e ∙ sym h)), λ met. sum_points-met tests met.1 ∙ h),
)

worth_less :
    (tests : List (Bool × ℕ)) → total tests + 1 ≤ 100 → IsFull (sum_points tests) false tests
worth_less tests h =
    let le = sum_points-le tests in
    (omega arith, (λ e. absurd (omega arith), λ met. absurd (apart met.0)))

by_feed :
    (o : Option Feed) (a b : Bool)
    → let tests = feed_field_points o ((a, 10) ∷ (b, 15) ∷ []) in
      IsFull (sum_points tests) (is_some o) tests
by_feed none a b = worth_less ((a, 10) ∷ (b, 15) ∷ []) (omega arith)
by_feed (some f) a b =
    worth_100 (feed_field_points (some f) ((a, 10) ∷ (b, 15) ∷ []))
      (
        omega arith,
        (
          omega arith,
          (
            omega arith,
            (
              omega arith,
              (
                omega arith,
                (
                  omega arith,
                  (omega arith, (omega arith, (omega arith, (omega arith, (omega arith, tt))))),
                ),
              ),
            ),
          ),
        ),
      )
      refl

by_track :
    (o : Option Track) (feed : Option Feed) (a b : Bool)
    → let tests = track_field_points o feed ((a, 20) ∷ (b, 10) ∷ []) in
      IsFull (sum_points tests) (is_some o) tests
by_track none feed a b = worth_less ((a, 20) ∷ (b, 10) ∷ []) (omega arith)
by_track (some t) feed a b =
    worth_100 (track_field_points (some t) feed ((a, 20) ∷ (b, 10) ∷ []))
      (
        omega arith,
        (
          omega arith,
          (
            omega arith,
            (
              omega arith,
              (
                omega arith,
                (
                  omega arith,
                  (omega arith, (omega arith, (omega arith, (omega arith, (omega arith, tt))))),
                ),
              ),
            ),
          ),
        ),
      )
      refl

-- The score of a feed is at most 100, and it is 100 exactly where the feed is stored and every test of its
-- fields, tracks and routes holds.
pub compute_feed_quality-bounds :
    (db : IndexDb) (feed_guid : String)
    → (compute_feed_quality db feed_guid ≤ 100)
      × ((compute_feed_quality db feed_guid ≡ 100) ↔ (
          (is_some (get_feed_by_guid db.feeds feed_guid) ≡ true)
          × AreMet (feed_points db feed_guid)))
unfolding compute_feed_quality
compute_feed_quality-bounds db feed_guid =
    by_feed (get_feed_by_guid db.feeds feed_guid) (has_track db feed_guid) (has_route db feed_guid)

-- As for a feed: the score of a track is at most 100, and it is 100 exactly where the track is stored and
-- every test of its fields, routes and splits holds.
pub compute_track_quality-bounds :
    (db : IndexDb) (feed_guid track_guid : String)
    → (compute_track_quality_for_feed_track db feed_guid track_guid ≤ 100)
      × ((compute_track_quality_for_feed_track db feed_guid track_guid ≡ 100) ↔ (
          (is_some (get_track_for_feed db.tracks feed_guid track_guid) ≡ true)
          × AreMet (track_points db feed_guid track_guid)))
unfolding compute_track_quality_for_feed_track
compute_track_quality-bounds db feed_guid track_guid =
    by_track (get_track_for_feed db.tracks feed_guid track_guid)
      (get_feed_by_guid db.feeds feed_guid) (has_route_of db feed_guid track_guid)
      (has_split_of db feed_guid track_guid)

-- What is stored for an entity is read for it, and the scores of the others stay.
pub get_quality-store_quality :
    (rows : List QualityRow) (t i u j : String) (score : ℕ)
    → get_quality (store_quality rows t i score) u j
      ≡ (if str_eq t u && str_eq i j then score else get_quality rows u j)
unfolding get_quality store_quality
get_quality-store_quality [] t i u j score = ground arith
get_quality-store_quality (r ∷ rest) t i u j score = ground (
  arith,
  get_quality-store_quality rest t i u j score,
  eq_iff r.entity_type t,
  eq_iff r.entity_id i,
  eq_iff r.entity_type u,
  eq_iff r.entity_id j,
  eq_iff t u,
  eq_iff i j,
)
