-- ===== src/Dispatch/Observed.antt =====
-- The URL observations of the primary and of a replica (src/db.rs, src/apply.rs).
use stophammer.Common.{
  ◌≡◌, refl, Option, none, some, List, [], ◌∷◌, ◌++◌, String, str_eq, Bool-cases, inl, inr,
}
use stophammer.Common.Int.{ℤ}
use stophammer.Common.Keyed.{find, put, find-put}
use stophammer.Dispatch.Observations.{
  FeedUrlObservation, get_feed_url_observation, observation, by_observation,
  record_feed_url_observation, upsert_feed_url_observation,
}

-- One URL that gave a GUID at a time.
pub record Sighting : Type 0 where
  pub url : String
  pub feed_guid : String
  pub seen_at : ℤ

abbrev pub Rows : Type 0
Rows = List (String × FeedUrlObservation)

abbrev pub event_of : Option FeedUrlObservation → List FeedUrlObservation
event_of none = []
event_of (some o) = o ∷ []

-- The table of the primary after the sightings, and the events that it signs.
unfoldable pub observe : Rows → List Sighting → Rows × List FeedUrlObservation
unfolding record_feed_url_observation
observe rows [] = (rows, [])
observe rows (s ∷ rest) =
    let step = record_feed_url_observation rows s.url s.feed_guid s.seen_at in
    let later = observe step.0 rest in (later.0, event_of step.1 ++ later.1)

unfoldable pub apply_observations : Rows → List FeedUrlObservation → Rows
unfolding upsert_feed_url_observation
apply_observations rows [] = rows
apply_observations rows (o ∷ rest) =
    apply_observations (upsert_feed_url_observation rows o.url o.feed_guid o.observed_at) rest

abbrev pub SameRows : Rows → Rows → Type 0
SameRows p r = (k : String) → find k p ≡ find k r

put_same :
    (p r : Rows) (url : String) (o : FeedUrlObservation)
    → SameRows p r
    → SameRows (put url o p) (put url o r)
put_same p r url o same k = rw (find-put url k o p, find-put url k o r, same k) refl

-- Where a replica has the rows of the primary, it has them after it applied the events of any sightings.
pub observe-SameRows :
    (p r : Rows) (sightings : List Sighting)
    → SameRows p r
    → SameRows (observe p sightings).0 (apply_observations r (observe p sightings).1)
unfolding observe apply_observations record_feed_url_observation upsert_feed_url_observation
observe-SameRows p r [] same = same
observe-SameRows p r (s ∷ rest) same =
    by_row (λ a b h. observe-SameRows a b rest h) (get_feed_url_observation p s.url)
  where
    by_row :
        ((a b : Rows)
          → SameRows a b
          → SameRows (observe a rest).0 (apply_observations b (observe a rest).1))
        → (o : Option FeedUrlObservation)
        → let step = by_observation p s.url s.feed_guid s.seen_at o in
          SameRows
            (observe step.0 rest).0
            (apply_observations r (event_of step.1 ++ (observe step.0 rest).1))
    by_row later none =
        later (put s.url (observation s.url s.feed_guid s.seen_at) p)
          (put s.url (observation s.url s.feed_guid s.seen_at) r)
          (put_same p r s.url (observation s.url s.feed_guid s.seen_at) same)
    by_row later (some row) = elim (Bool-cases (str_eq row.feed_guid s.feed_guid)) [
      | inl e ↦ rw e (later p r same)
      | inr e ↦ rw e (
          later (put s.url (observation s.url s.feed_guid s.seen_at) p)
            (put s.url (observation s.url s.feed_guid s.seen_at) r)
            (put_same p r s.url (observation s.url s.feed_guid s.seen_at) same))
    ]
