-- ===== src/Index/Rows.antt =====
-- The rows of the index (src/model.rs). The `id` that SQLite gives a row, which nothing compares, is
-- left out.
use stophammer.Common.{Bool, Option, String}
use stophammer.Common.Int.{ℤ}

pub data RouteType : Type 0 where
  node : RouteType
  wallet : RouteType
  keysend : RouteType
  lnaddress : RouteType

abbrev pub route_type_name : RouteType → String
route_type_name node = "node"
route_type_name wallet = "wallet"
route_type_name keysend = "keysend"
route_type_name lnaddress = "lnaddress"

pub record Feed : Type 0 where
  pub feed_guid : String
  pub feed_url : String
  pub title : String
  pub title_lower : String
  pub description : Option String
  pub image_url : Option String
  pub publisher : Option String
  pub language : Option String
  pub explicit : Bool
  pub itunes_type : Option String
  pub release_artist : Option String
  pub release_artist_sort : Option String
  pub release_date : Option ℤ
  pub release_kind : Option String
  pub episode_count : ℤ
  pub newest_item_at : Option ℤ
  pub oldest_item_at : Option ℤ
  pub created_at : ℤ
  pub updated_at : ℤ
  pub raw_medium : Option String
  pub last_build_date : Option ℤ
  pub release_artist_source : Option String

pub record Track : Type 0 where
  pub track_guid : String
  pub feed_guid : String
  pub title : String
  pub title_lower : String
  pub pub_date : Option ℤ
  pub duration_secs : Option ℤ
  pub enclosure_url : Option String
  pub enclosure_type : Option String
  pub enclosure_bytes : Option ℤ
  pub track_number : Option ℤ
  pub season : Option ℤ
  pub image_url : Option String
  pub publisher : Option String
  pub language : Option String
  pub explicit : Bool
  pub description : Option String
  pub track_artist : Option String
  pub track_artist_sort : Option String
  pub created_at : ℤ
  pub updated_at : ℤ

pub record PaymentRoute : Type 0 where
  pub track_guid : String
  pub feed_guid : String
  pub recipient_name : Option String
  pub route_type : RouteType
  pub address : String
  pub custom_key : Option String
  pub custom_value : Option String
  pub split : ℤ
  pub fee : Bool

pub record FeedPaymentRoute : Type 0 where
  pub feed_guid : String
  pub recipient_name : Option String
  pub route_type : RouteType
  pub address : String
  pub custom_key : Option String
  pub custom_value : Option String
  pub split : ℤ
  pub fee : Bool

pub record FeedListValueRaw : Type 0 where
  pub feed_guid : String
  pub recipient_name : Option String
  pub route_type : RouteType
  pub address : String
  pub custom_key : Option String
  pub custom_value : Option String
  pub split : ℤ
  pub fee : Bool
  pub position : ℤ

pub record FeedRemoteItemRaw : Type 0 where
  pub feed_guid : String
  pub position : ℤ
  pub medium : Option String
  pub remote_feed_guid : String
  pub remote_feed_url : Option String
  pub rel : Option String
  pub source : String
  pub remote_item_guid : Option String
  pub remote_item_title : Option String

pub record TrackRemoteItemRaw : Type 0 where
  pub feed_guid : String
  pub track_guid : String
  pub position : ℤ
  pub medium : Option String
  pub remote_feed_guid : String
  pub remote_feed_url : Option String
  pub rel : Option String
  pub source : String

pub record LiveEvent : Type 0 where
  pub live_item_guid : String
  pub feed_guid : String
  pub title : String
  pub content_link : Option String
  pub status : String
  pub scheduled_start : Option ℤ
  pub scheduled_end : Option ℤ
  pub created_at : ℤ
  pub updated_at : ℤ
  pub live_value_uri : Option String
  pub live_value_protocol : Option String
