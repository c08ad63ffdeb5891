-- ===== src/Index/Events.antt =====
-- The payloads of the events on the rows of a feed (src/event.rs), and the `build_*_event` functions of
-- src/db.rs. The random `event_id` is left out; the type of an event is that of its payload.
use stophammer.Common.{Option, some, List, String}
use stophammer.Common.Int.{ℤ}
use stophammer.Index.Rows.{
  Feed, Track, PaymentRoute, FeedPaymentRoute, FeedListValueRaw, FeedRemoteItemRaw,
  TrackRemoteItemRaw, LiveEvent,
}
use stophammer.Index.Claims.{
  SourceContributorClaim, SourceEntityIdClaim, SourceEntityLink, SourceReleaseClaim,
  SourceItemEnclosure, SourceItemTranscript, SourcePlatformClaim,
}
use stophammer.Index.Splits.{ValueTimeSplit}

pub data RowPayload : Type 0 where
  feed_upserted : Feed → RowPayload
  feed_retired : String → RowPayload
  track_upserted : Track → List PaymentRoute → List ValueTimeSplit → RowPayload
  track_removed : String → String → RowPayload
  routes_replaced : Option String → String → List PaymentRoute → RowPayload
  track_remote_items_replaced : Option String → String → List TrackRemoteItemRaw → RowPayload
  feed_routes_replaced : String → List FeedPaymentRoute → RowPayload
  feed_list_value_replaced : String → List FeedListValueRaw → RowPayload
  feed_remote_items_replaced : String → List FeedRemoteItemRaw → RowPayload
  source_contributor_claims_replaced : String → List SourceContributorClaim → RowPayload
  source_entity_ids_replaced : String → List SourceEntityIdClaim → RowPayload
  source_entity_links_replaced : String → List SourceEntityLink → RowPayload
  source_release_claims_replaced : String → List SourceReleaseClaim → RowPayload
  source_item_enclosures_replaced : String → List SourceItemEnclosure → RowPayload
  source_item_transcripts_replaced : String → List SourceItemTranscript → RowPayload
  source_platform_claims_replaced : String → List SourcePlatformClaim → RowPayload
  live_events_replaced : String → List LiveEvent → RowPayload

pub record EventRow : Type 0 where
  pub payload : RowPayload
  pub subject_guid : String
  pub created_at : ℤ
  pub warnings : List String

pub record TrackIngestBundle : Type 0 where
  pub track : Track
  pub routes : List PaymentRoute
  pub splits : List ValueTimeSplit
  pub remote_items : List TrackRemoteItemRaw

-- The rows of one submission.
pub record Submission : Type 0 where
  pub feed : Feed
  pub feed_routes : List FeedPaymentRoute
  pub list_values : List FeedListValueRaw
  pub remote_items : List FeedRemoteItemRaw
  pub contributor_claims : List SourceContributorClaim
  pub entity_ids : List SourceEntityIdClaim
  pub entity_links : List SourceEntityLink
  pub release_claims : List SourceReleaseClaim
  pub item_enclosures : List SourceItemEnclosure
  pub item_transcripts : List SourceItemTranscript
  pub platform_claims : List SourcePlatformClaim
  pub live_events : List LiveEvent
  pub tracks : List TrackIngestBundle

module _ (now : ℤ) (warnings : List String) where
  abbrev pub event_row : RowPayload → String → EventRow
  event_row payload subject_guid = record {
    payload = payload;
    subject_guid = subject_guid;
    created_at = now;
    warnings = warnings;
  }

  abbrev pub build_feed_upserted_event : Feed → EventRow
  build_feed_upserted_event feed = event_row (feed_upserted feed) feed.feed_guid

  abbrev pub build_track_upserted_event : TrackIngestBundle → EventRow
  build_track_upserted_event b =
      event_row (track_upserted b.track b.routes b.splits) b.track.track_guid

  abbrev pub build_track_remote_items_event : Track → List TrackRemoteItemRaw → EventRow
  build_track_remote_items_event track items =
      event_row (track_remote_items_replaced (some track.feed_guid) track.track_guid items)
        track.track_guid

  abbrev pub build_feed_routes_event : Feed → List FeedPaymentRoute → EventRow
  build_feed_routes_event feed rows =
      event_row (feed_routes_replaced feed.feed_guid rows) feed.feed_guid

  abbrev pub build_feed_list_value_event : Feed → List FeedListValueRaw → EventRow
  build_feed_list_value_event feed rows =
      event_row (feed_list_value_replaced feed.feed_guid rows) feed.feed_guid

  abbrev pub build_feed_remote_items_event : Feed → List FeedRemoteItemRaw → EventRow
  build_feed_remote_items_event feed rows =
      event_row (feed_remote_items_replaced feed.feed_guid rows) feed.feed_guid

  abbrev pub build_source_contributor_claims_event : Feed → List SourceContributorClaim → EventRow
  build_source_contributor_claims_event feed rows =
      event_row (source_contributor_claims_replaced feed.feed_guid rows) feed.feed_guid

  abbrev pub build_source_entity_ids_event : Feed → List SourceEntityIdClaim → EventRow
  build_source_entity_ids_event feed rows =
      event_row (source_entity_ids_replaced feed.feed_guid rows) feed.feed_guid

  abbrev pub build_source_entity_links_event : Feed → List SourceEntityLink → EventRow
  build_source_entity_links_event feed rows =
      event_row (source_entity_links_replaced feed.feed_guid rows) feed.feed_guid

  abbrev pub build_source_release_claims_event : Feed → List SourceReleaseClaim → EventRow
  build_source_release_claims_event feed rows =
      event_row (source_release_claims_replaced feed.feed_guid rows) feed.feed_guid

  abbrev pub build_source_item_enclosures_event : Feed → List SourceItemEnclosure → EventRow
  build_source_item_enclosures_event feed rows =
      event_row (source_item_enclosures_replaced feed.feed_guid rows) feed.feed_guid

  abbrev pub build_source_item_transcripts_event : Feed → List SourceItemTranscript → EventRow
  build_source_item_transcripts_event feed rows =
      event_row (source_item_transcripts_replaced feed.feed_guid rows) feed.feed_guid

  abbrev pub build_source_platform_claims_event : Feed → List SourcePlatformClaim → EventRow
  build_source_platform_claims_event feed rows =
      event_row (source_platform_claims_replaced feed.feed_guid rows) feed.feed_guid

  abbrev pub build_live_events_event : Feed → List LiveEvent → EventRow
  build_live_events_event feed rows =
      event_row (live_events_replaced feed.feed_guid rows) feed.feed_guid
