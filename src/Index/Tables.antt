-- ===== src/Index/Tables.antt =====
-- The tables of the index (src/db.rs) and the deletion of a track and of a feed. The search index, the
-- quality scores and the columns that are computed from others are left out.
use stophammer.Common.{
  Bool, not, Option, none, some, List, [], ◌∷◌, String, str_eq, select, any, ◌&&◌,
}
use stophammer.Common.Cells.{Cell, text}
use stophammer.Common.Sorting.{sort_by, dedupe_by}
use stophammer.Index.Rows.{
  Feed, Track, PaymentRoute, FeedPaymentRoute, FeedListValueRaw, FeedRemoteItemRaw,
  TrackRemoteItemRaw, LiveEvent,
}
use stophammer.Index.Claims.{
  SourceContributorClaim, SourceEntityIdClaim, SourceEntityLink, SourceReleaseClaim,
  SourceItemEnclosure, SourceItemTranscript, SourcePlatformClaim,
}
use stophammer.Index.Splits.{ValueTimeSplit, without_splits}
use stophammer.Index.Tracks.{delete_track_row, without_routes, without_items}
use stophammer.Index.Store.{without}

pub record IndexDb : Type 0 where
  pub feeds : List Feed
  pub tracks : List Track
  pub payment_routes : List PaymentRoute
  pub splits : List (Option String × ValueTimeSplit)
  pub track_items : List (Option String × TrackRemoteItemRaw)
  pub live_events : List LiveEvent
  pub feed_routes : List FeedPaymentRoute
  pub list_values : List FeedListValueRaw
  pub remote_items : List FeedRemoteItemRaw
  pub contributor_claims : List SourceContributorClaim
  pub entity_ids : List SourceEntityIdClaim
  pub entity_links : List SourceEntityLink
  pub release_claims : List SourceReleaseClaim
  pub item_enclosures : List SourceItemEnclosure
  pub item_transcripts : List SourceItemTranscript
  pub platform_claims : List SourcePlatformClaim

abbrev pub live_guid : LiveEvent → String
live_guid r = r.feed_guid

abbrev pub live_key : LiveEvent → List Cell
live_key r = text r.live_item_guid ∷ []

unfoldable pub dedupe_live_events : List LiveEvent → List LiveEvent
unfolding dedupe_by
dedupe_live_events rows = dedupe_by live_key rows

unfoldable pub dedupe_and_sort_live_events : List LiveEvent → List LiveEvent
unfolding dedupe_live_events sort_by
dedupe_and_sort_live_events rows = sort_by live_key (dedupe_live_events rows)

unfoldable pub delete_track_sql : IndexDb → String → String → IndexDb
unfolding delete_track_row without_routes select
delete_track_sql db feed_guid track_guid = record db {
  splits = without_splits db.splits feed_guid track_guid;
  payment_routes = without_routes db.payment_routes feed_guid track_guid;
  track_items = without_items db.track_items feed_guid track_guid;
  tracks = delete_track_row db.tracks feed_guid track_guid;
}

-- WHERE feed_guid = ?1, and for each track of the feed WHERE track_guid = ?2 AND feed_guid IS NULL.
abbrev is_of_feed : List Track → String → Option String → String → Bool
is_of_feed tracks feed_guid none t =
    any (λ k. str_eq k.feed_guid feed_guid && str_eq k.track_guid t) tracks
is_of_feed tracks feed_guid (some f) t = str_eq f feed_guid

-- A trigger of the schema deletes the rows of `feed_list_value_raw`.
unfoldable pub delete_feed_sql : IndexDb → String → IndexDb
unfolding without select any
delete_feed_sql db guid = record {
  feeds = without (λ f. f.feed_guid) guid db.feeds;
  tracks = without (λ t. t.feed_guid) guid db.tracks;
  payment_routes = without (λ r. r.feed_guid) guid db.payment_routes;
  splits =
      select
        (λ (r : Option String × ValueTimeSplit).
          not (is_of_feed db.tracks guid r.0 r.1.source_track_guid))
        db.splits;
  track_items =
      select
        (λ (r : Option String × TrackRemoteItemRaw).
          not (is_of_feed db.tracks guid r.0 r.1.track_guid))
        db.track_items;
  live_events = without live_guid guid db.live_events;
  feed_routes = without (λ r. r.feed_guid) guid db.feed_routes;
  list_values = without (λ r. r.feed_guid) guid db.list_values;
  remote_items = without (λ r. r.feed_guid) guid db.remote_items;
  contributor_claims = without (λ r. r.feed_guid) guid db.contributor_claims;
  entity_ids = without (λ r. r.feed_guid) guid db.entity_ids;
  entity_links = without (λ r. r.feed_guid) guid db.entity_links;
  release_claims = without (λ r. r.feed_guid) guid db.release_claims;
  item_enclosures = without (λ r. r.feed_guid) guid db.item_enclosures;
  item_transcripts = without (λ r. r.feed_guid) guid db.item_transcripts;
  platform_claims = without (λ r. r.feed_guid) guid db.platform_claims;
}
