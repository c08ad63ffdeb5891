-- ===== src/Verify/Request.antt =====
-- What the checks read of a submission: the request of src/ingest.rs, the crawl cache and the result
-- types of src/verify.rs. An error text is a constructor of `Message` with the values it shows.
use stophammer.Common.{Bool, Option, List, String}
use stophammer.Common.Int.{ℤ}

pub record PaymentRoute : Type 0 where
  pub address : String
  pub split : ℤ

pub record TrackData : Type 0 where
  pub track_guid : String
  pub enclosure_type : Option String
  pub payment_routes : List PaymentRoute

pub record RemoteItem : Type 0 where
  pub medium : Option String

pub record FeedData : Type 0 where
  pub feed_guid : String
  pub raw_medium : Option String
  pub remote_items : List RemoteItem
  pub feed_payment_routes : List PaymentRoute
  pub tracks : List TrackData

pub record FeedRequest : Type 0 where
  pub canonical_url : String
  pub crawl_token : String
  pub content_hash : String
  pub feed_data : Option FeedData
  pub force_reingest : Bool

-- `crawl_cache` is the SELECT on `feed_crawl_cache` by URL.
pub record IngestContext : Type 0 where
  pub request : FeedRequest
  pub crawl_cache : String → Option String

pub data Message : Type 0 where
  no_change : Message
  bad_guid invalid_uuid : String → Message
  no_music_child medium_absent : Message
  wrong_medium : String → Message
  invalid_feed_block no_block_no_tracks : Message
  no_block_to_fall_back_to invalid_track_block : String → Message
  wrong_sum : String → ℤ → Message
  video_enclosure : String → String → Message
  invalid_crawl_token : Message

pub data VerifyResult : Type 0 where
  pass : VerifyResult
  warn : Message → VerifyResult
  fail : Message → VerifyResult

-- `[name] message`.
pub record Labelled : Type 0 where
  pub name : String
  pub message : Message

pub data RunResult : Type 0 where
  ok : List Labelled → RunResult
  err : Labelled → RunResult
