-- ===== src/Index/Follow/SharedRows.antt =====
-- What two nodes share of a row: the row with the fields cleared that an ingest may leave stale on a replica,
-- as the comparisons of src/db.rs do not read them, and with the key cleared by which it is looked up.
use stophammer.Common.{◌≡◌, refl, none, List}
use stophammer.Common.Int.{pos}
use stophammer.Common.Cells.{Cell}
use stophammer.Index.Rows.{
  Feed, Track, FeedPaymentRoute, FeedListValueRaw, FeedRemoteItemRaw, TrackRemoteItemRaw, LiveEvent,
}
use stophammer.Index.Compare.{
  feed_fields, track_fields, feed_route_fields, list_value_fields, remote_item_fields,
  track_remote_item_fields, live_event_fields,
}
use stophammer.Index.Follow.Cellwise.{
  at, as_text, as_opt_text, as_int, as_opt_int, as_flag, as_route, opt_text_lem, opt_int_lem,
  flag_lem, route_lem, IsShared, shared_lem,
}

abbrev pub feed_shared : Feed → Feed
feed_shared r = record r {
  feed_guid = "";
  title_lower = "";
  episode_count = pos 0;
  newest_item_at = none;
  oldest_item_at = none;
  created_at = pos 0;
  updated_at = pos 0;
  last_build_date = none;
  release_artist_source = none;
}

abbrev feed_of : List Cell → Feed
feed_of c = record {
  feed_guid = "";
  feed_url = as_text (at 12 c);
  title = as_text (at 0 c);
  title_lower = "";
  description = as_opt_text (at 1 c);
  image_url = as_opt_text (at 2 c);
  publisher = as_opt_text (at 3 c);
  language = as_opt_text (at 4 c);
  explicit = as_flag (at 5 c);
  itunes_type = as_opt_text (at 6 c);
  release_artist = as_opt_text (at 7 c);
  release_artist_sort = as_opt_text (at 8 c);
  release_date = as_opt_int (at 9 c);
  release_kind = as_opt_text (at 10 c);
  episode_count = pos 0;
  newest_item_at = none;
  oldest_item_at = none;
  created_at = pos 0;
  updated_at = pos 0;
  raw_medium = as_opt_text (at 11 c);
  last_build_date = none;
  release_artist_source = none;
}

feed_of_lem : (r : Feed) → feed_of (feed_fields r) ≡ feed_shared r
feed_of_lem r = simp (opt_text_lem, opt_int_lem, flag_lem)

pub feed-IsShared : IsShared feed_fields feed_shared
feed-IsShared = shared_lem feed_fields feed_shared feed_of (λ r. refl) feed_of_lem

abbrev pub track_shared : Track → Track
track_shared r = record r {
  track_guid = "";
  feed_guid = "";
  title_lower = "";
  created_at = pos 0;
  updated_at = pos 0;
}

abbrev track_of : List Cell → Track
track_of c = record {
  track_guid = "";
  feed_guid = "";
  title = as_text (at 0 c);
  title_lower = "";
  pub_date = as_opt_int (at 1 c);
  duration_secs = as_opt_int (at 2 c);
  enclosure_url = as_opt_text (at 5 c);
  enclosure_type = as_opt_text (at 6 c);
  enclosure_bytes = as_opt_int (at 7 c);
  track_number = as_opt_int (at 8 c);
  season = as_opt_int (at 9 c);
  image_url = as_opt_text (at 3 c);
  publisher = as_opt_text (at 12 c);
  language = as_opt_text (at 4 c);
  explicit = as_flag (at 10 c);
  description = as_opt_text (at 11 c);
  track_artist = as_opt_text (at 13 c);
  track_artist_sort = as_opt_text (at 14 c);
  created_at = pos 0;
  updated_at = pos 0;
}

track_of_lem : (r : Track) → track_of (track_fields r) ≡ track_shared r
track_of_lem r = simp (opt_text_lem, opt_int_lem, flag_lem)

pub track-IsShared : IsShared track_fields track_shared
track-IsShared = shared_lem track_fields track_shared track_of (λ r. refl) track_of_lem

abbrev pub feed_route_shared : FeedPaymentRoute → FeedPaymentRoute
feed_route_shared r = record r { feed_guid = "" }

abbrev feed_route_of : List Cell → FeedPaymentRoute
feed_route_of c = record {
  feed_guid = "";
  recipient_name = as_opt_text (at 0 c);
  route_type = as_route (at 1 c);
  address = as_text (at 2 c);
  custom_key = as_opt_text (at 3 c);
  custom_value = as_opt_text (at 4 c);
  split = as_int (at 5 c);
  fee = as_flag (at 6 c);
}

feed_route_of_lem :
    (r : FeedPaymentRoute) → feed_route_of (feed_route_fields r) ≡ feed_route_shared r
feed_route_of_lem r = simp (opt_text_lem, flag_lem, route_lem)

pub feed_route-IsShared : IsShared feed_route_fields feed_route_shared
feed_route-IsShared =
    shared_lem feed_route_fields feed_route_shared feed_route_of (λ r. refl) feed_route_of_lem

abbrev pub list_value_shared : FeedListValueRaw → FeedListValueRaw
list_value_shared r = record r { feed_guid = "" }

abbrev list_value_of : List Cell → FeedListValueRaw
list_value_of c = record {
  feed_guid = "";
  recipient_name = as_opt_text (at 0 c);
  route_type = as_route (at 1 c);
  address = as_text (at 2 c);
  custom_key = as_opt_text (at 3 c);
  custom_value = as_opt_text (at 4 c);
  split = as_int (at 5 c);
  fee = as_flag (at 6 c);
  position = as_int (at 7 c);
}

list_value_of_lem :
    (r : FeedListValueRaw) → list_value_of (list_value_fields r) ≡ list_value_shared r
list_value_of_lem r = simp (opt_text_lem, flag_lem, route_lem)

pub list_value-IsShared : IsShared list_value_fields list_value_shared
list_value-IsShared =
    shared_lem list_value_fields list_value_shared list_value_of (λ r. refl) list_value_of_lem

abbrev pub remote_item_shared : FeedRemoteItemRaw → FeedRemoteItemRaw
remote_item_shared r = record r { feed_guid = "" }

abbrev remote_item_of : List Cell → FeedRemoteItemRaw
remote_item_of c = record {
  feed_guid = "";
  position = as_int (at 0 c);
  medium = as_opt_text (at 1 c);
  remote_feed_guid = as_text (at 2 c);
  remote_feed_url = as_opt_text (at 3 c);
  rel = as_opt_text (at 4 c);
  source = as_text (at 5 c);
  remote_item_guid = as_opt_text (at 6 c);
  remote_item_title = as_opt_text (at 7 c);
}

remote_item_of_lem :
    (r : FeedRemoteItemRaw) → remote_item_of (remote_item_fields r) ≡ remote_item_shared r
remote_item_of_lem r = simp opt_text_lem

pub remote_item-IsShared : IsShared remote_item_fields remote_item_shared
remote_item-IsShared =
    shared_lem remote_item_fields remote_item_shared remote_item_of (λ r. refl) remote_item_of_lem

abbrev pub track_remote_item_shared : TrackRemoteItemRaw → TrackRemoteItemRaw
track_remote_item_shared r = record r { feed_guid = ""; track_guid = ""; rel = none }

abbrev track_remote_item_of : List Cell → TrackRemoteItemRaw
track_remote_item_of c = record {
  feed_guid = "";
  track_guid = "";
  position = as_int (at 0 c);
  medium = as_opt_text (at 1 c);
  remote_feed_guid = as_text (at 2 c);
  remote_feed_url = as_opt_text (at 3 c);
  rel = none;
  source = as_text (at 4 c);
}

track_remote_item_of_lem :
    (r : TrackRemoteItemRaw)
    → track_remote_item_of (track_remote_item_fields r) ≡ track_remote_item_shared r
track_remote_item_of_lem r = simp opt_text_lem

pub track_remote_item-IsShared : IsShared track_remote_item_fields track_remote_item_shared
track_remote_item-IsShared =
    shared_lem track_remote_item_fields track_remote_item_shared track_remote_item_of (λ r. refl)
      track_remote_item_of_lem

abbrev pub live_event_shared : LiveEvent → LiveEvent
live_event_shared r = record r { feed_guid = ""; created_at = pos 0; updated_at = pos 0 }

abbrev live_event_of : List Cell → LiveEvent
live_event_of c = record {
  live_item_guid = as_text (at 0 c);
  feed_guid = "";
  title = as_text (at 1 c);
  content_link = as_opt_text (at 2 c);
  status = as_text (at 3 c);
  scheduled_start = as_opt_int (at 4 c);
  scheduled_end = as_opt_int (at 5 c);
  created_at = pos 0;
  updated_at = pos 0;
  live_value_uri = as_opt_text (at 6 c);
  live_value_protocol = as_opt_text (at 7 c);
}

live_event_of_lem : (r : LiveEvent) → live_event_of (live_event_fields r) ≡ live_event_shared r
live_event_of_lem r = simp (opt_text_lem, opt_int_lem)

pub live_event-IsShared : IsShared live_event_fields live_event_shared
live_event-IsShared =
    shared_lem live_event_fields live_event_shared live_event_of (λ r. refl) live_event_of_lem
