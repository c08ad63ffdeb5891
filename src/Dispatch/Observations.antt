-- ===== src/Dispatch/Observations.antt =====
-- The table `feed_url_observations` (src/db.rs), with the URL as the key. SQL statements are taken to
-- succeed.
use stophammer.Common.{Option, none, some, List, String, str_eq, if◌then◌else◌}
use stophammer.Common.Int.{ℤ}
use stophammer.Common.Keyed.{find, put}

pub record FeedUrlObservation : Type 0 where
  pub url : String
  pub feed_guid : String
  pub observed_at : ℤ

unfoldable pub get_feed_url_observation :
    List (String × FeedUrlObservation) → String → Option FeedUrlObservation
get_feed_url_observation rows url = find url rows

abbrev pub observation : String → String → ℤ → FeedUrlObservation
observation url feed_guid now = record { url = url; feed_guid = feed_guid; observed_at = now }

abbrev pub by_observation :
    List (String × FeedUrlObservation)
    → String
    → String
    → ℤ
    → Option FeedUrlObservation
    → List (String × FeedUrlObservation) × Option FeedUrlObservation
by_observation rows url feed_guid now none =
    (put url (observation url feed_guid now) rows, some (observation url feed_guid now))
by_observation rows url feed_guid now (some row) =
    if str_eq row.feed_guid feed_guid
    then (rows, none)
    else (put url (observation url feed_guid now) rows, some (observation url feed_guid now))

-- The rows, and the observation that the caller signs an event for.
unfoldable pub record_feed_url_observation :
    List (String × FeedUrlObservation)
    → String
    → String
    → ℤ
    → List (String × FeedUrlObservation) × Option FeedUrlObservation
unfolding get_feed_url_observation put
record_feed_url_observation rows url feed_guid now =
    by_observation rows url feed_guid now (get_feed_url_observation rows url)

unfoldable pub upsert_feed_url_observation :
    List (String × FeedUrlObservation) → String → String → ℤ → List (String × FeedUrlObservation)
unfolding put
upsert_feed_url_observation rows url feed_guid observed_at =
    put url (observation url feed_guid observed_at) rows
