-- ===== src/Index/Tracks.antt =====
-- The rows of a track (src/db.rs): the track, its payment routes and its remote items.
use stophammer.Common.{
  Bool, not, ◌&&◌, Option, none, some, List, [], ◌∷◌, ◌++◌, String, str_eq, select, map,
  if◌then◌else◌,
}
use stophammer.Common.Cells.{Cell, int}
use stophammer.Common.Sorting.{sort_by}
use stophammer.Index.Rows.{Feed, Track, PaymentRoute, TrackRemoteItemRaw}
use stophammer.Index.Splits.{is_of_track, given_or}

unfoldable pub get_feed_by_guid : List Feed → String → Option Feed
get_feed_by_guid [] guid = none
get_feed_by_guid (f ∷ rest) guid =
    if str_eq f.feed_guid guid then some f else get_feed_by_guid rest guid

-- ON CONFLICT(feed_guid) DO UPDATE sets every column but `created_at`. The columns that are computed
-- from the title and the URL are left out.
unfoldable pub upsert_feed : List Feed → Feed → List Feed
upsert_feed [] feed = feed ∷ []
upsert_feed (f ∷ rest) feed =
    if str_eq f.feed_guid feed.feed_guid
    then record feed { created_at = f.created_at } ∷ rest
    else f ∷ upsert_feed rest feed

abbrev pub is_track : String → String → Track → Bool
is_track feed_guid track_guid t = str_eq t.feed_guid feed_guid && str_eq t.track_guid track_guid

unfoldable pub get_track_for_feed : List Track → String → String → Option Track
get_track_for_feed [] feed_guid track_guid = none
get_track_for_feed (t ∷ rest) feed_guid track_guid =
    if is_track feed_guid track_guid t then some t else get_track_for_feed rest feed_guid track_guid

unfoldable pub upsert_track : List Track → Track → List Track
upsert_track [] track = track ∷ []
upsert_track (t ∷ rest) track =
    if is_track track.feed_guid track.track_guid t
    then record track { created_at = t.created_at } ∷ rest
    else t ∷ upsert_track rest track

unfoldable pub delete_track_row : List Track → String → String → List Track
unfolding select
delete_track_row rows feed_guid track_guid =
    select (λ t. not (is_track feed_guid track_guid t)) rows

abbrev is_route_of : String → String → PaymentRoute → Bool
is_route_of feed_guid track_guid r = str_eq r.feed_guid feed_guid && str_eq r.track_guid track_guid

unfoldable pub without_routes : List PaymentRoute → String → String → List PaymentRoute
unfolding select
without_routes rows feed_guid track_guid =
    select (λ r. not (is_route_of feed_guid track_guid r)) rows

unfoldable pub replace_payment_routes_for_feed_track :
    List PaymentRoute → String → String → List PaymentRoute → List PaymentRoute
unfolding without_routes
replace_payment_routes_for_feed_track rows feed_guid track_guid routes =
    without_routes rows feed_guid track_guid
    ++ map (λ (r : PaymentRoute). record r { feed_guid = feed_guid; track_guid = track_guid })
        routes

unfoldable pub replace_payment_routes :
    List PaymentRoute → String → List PaymentRoute → List PaymentRoute
unfolding select
replace_payment_routes rows track_guid routes =
    select (λ r. not (str_eq r.track_guid track_guid)) rows ++ routes

abbrev pub without_items :
    List (Option String × TrackRemoteItemRaw)
    → String
    → String
    → List (Option String × TrackRemoteItemRaw)
without_items rows feed_guid track_guid =
    select
      (λ (r : Option String × TrackRemoteItemRaw).
        not (is_of_track feed_guid track_guid r.0 r.1.track_guid))
      rows

abbrev pub item_row : String → String → TrackRemoteItemRaw → Option String × TrackRemoteItemRaw
item_row feed_guid track_guid r =
    (some feed_guid, record r { feed_guid = feed_guid; track_guid = track_guid })

unfoldable pub replace_track_remote_items_raw_for_feed_track :
    List (Option String × TrackRemoteItemRaw)
    → String
    → String
    → List TrackRemoteItemRaw
    → List (Option String × TrackRemoteItemRaw)
unfolding select
replace_track_remote_items_raw_for_feed_track rows feed_guid track_guid items =
    without_items rows feed_guid track_guid
    ++ map (λ i. item_row (given_or feed_guid i.feed_guid) track_guid i) items

-- The rows that an event without a feed GUID writes have a NULL there.
unfoldable pub replace_track_remote_items_raw :
    List (Option String × TrackRemoteItemRaw)
    → String
    → List TrackRemoteItemRaw
    → List (Option String × TrackRemoteItemRaw)
unfolding select
replace_track_remote_items_raw rows track_guid items =
    select (λ (r : Option String × TrackRemoteItemRaw). not (str_eq r.1.track_guid track_guid)) rows
    ++ map (λ i. (none, i)) items

abbrev pub track_item_order : TrackRemoteItemRaw → List Cell
track_item_order r = int r.position ∷ []

abbrev or_default : Option String → String
or_default none = ""
or_default (some s) = s

abbrev pub read_item : Option String × TrackRemoteItemRaw → TrackRemoteItemRaw
read_item r = record r.1 { feed_guid = or_default r.0 }

unfoldable pub get_track_remote_items_for_feed_track :
    List (Option String × TrackRemoteItemRaw) → String → String → List TrackRemoteItemRaw
unfolding select sort_by
get_track_remote_items_for_feed_track rows feed_guid track_guid = sort_by track_item_order (
    map read_item (
      select
        (λ (r : Option String × TrackRemoteItemRaw).
          is_of_track feed_guid track_guid r.0 r.1.track_guid)
        rows))
