-- ===== src/Index/Compare.antt =====
-- The fields that the comparisons of src/db.rs read, and the comparisons. Each `*_changed` there tests
-- the lengths and then the rows at the same index, field by field.
use stophammer.Common.{Bool, List, [], ◌∷◌, not, false, ◌||◌, length}
use stophammer.Common.{◌==◌}
use stophammer.Common.Cells.{Cell, int, text, opt_text, opt_int, flag, cells_eq}
use stophammer.Index.Rows.{
  route_type_name, Feed, Track, FeedPaymentRoute, FeedListValueRaw, FeedRemoteItemRaw,
  TrackRemoteItemRaw, LiveEvent,
}

-- `existing.iter().zip(new.iter()).any(..)`.
unfoldable pub any_pair {ℓ} : {A : Type ℓ} → (A → A → Bool) → List A → List A → Bool
any_pair differs [] ys = false
any_pair differs (x ∷ xs) [] = false
any_pair differs (x ∷ xs) (y ∷ ys) = differs x y || any_pair differs xs ys

abbrev pub row_differs {ℓ} : {A : Type ℓ} → (A → List Cell) → A → A → Bool
row_differs fields a b = not (cells_eq (fields a) (fields b))

abbrev pub rows_changed {ℓ} : {A : Type ℓ} → (A → List Cell) → List A → List A → Bool
rows_changed fields existing new =
    not (length existing == length new) || any_pair (row_differs fields) existing new

abbrev pub feed_fields : Feed → List Cell
feed_fields r =
    text r.title
    ∷ opt_text r.description
    ∷ opt_text r.image_url
    ∷ opt_text r.publisher
    ∷ opt_text r.language
    ∷ flag r.explicit
    ∷ opt_text r.itunes_type
    ∷ opt_text r.release_artist
    ∷ opt_text r.release_artist_sort
    ∷ opt_int r.release_date
    ∷ opt_text r.release_kind
    ∷ opt_text r.raw_medium
    ∷ text r.feed_url
    ∷ []

abbrev pub track_fields : Track → List Cell
track_fields r =
    text r.title
    ∷ opt_int r.pub_date
    ∷ opt_int r.duration_secs
    ∷ opt_text r.image_url
    ∷ opt_text r.language
    ∷ opt_text r.enclosure_url
    ∷ opt_text r.enclosure_type
    ∷ opt_int r.enclosure_bytes
    ∷ opt_int r.track_number
    ∷ opt_int r.season
    ∷ flag r.explicit
    ∷ opt_text r.description
    ∷ opt_text r.publisher
    ∷ opt_text r.track_artist
    ∷ opt_text r.track_artist_sort
    ∷ []

abbrev pub feed_route_fields : FeedPaymentRoute → List Cell
feed_route_fields r =
    opt_text r.recipient_name
    ∷ text (route_type_name r.route_type)
    ∷ text r.address
    ∷ opt_text r.custom_key
    ∷ opt_text r.custom_value
    ∷ int r.split
    ∷ flag r.fee
    ∷ []

abbrev pub list_value_fields : FeedListValueRaw → List Cell
list_value_fields r =
    opt_text r.recipient_name
    ∷ text (route_type_name r.route_type)
    ∷ text r.address
    ∷ opt_text r.custom_key
    ∷ opt_text r.custom_value
    ∷ int r.split
    ∷ flag r.fee
    ∷ int r.position
    ∷ []

abbrev pub remote_item_fields : FeedRemoteItemRaw → List Cell
remote_item_fields r =
    int r.position
    ∷ opt_text r.medium
    ∷ text r.remote_feed_guid
    ∷ opt_text r.remote_feed_url
    ∷ opt_text r.rel
    ∷ text r.source
    ∷ opt_text r.remote_item_guid
    ∷ opt_text r.remote_item_title
    ∷ []

abbrev pub track_remote_item_fields : TrackRemoteItemRaw → List Cell
track_remote_item_fields r =
    int r.position
    ∷ opt_text r.medium
    ∷ text r.remote_feed_guid
    ∷ opt_text r.remote_feed_url
    ∷ text r.source
    ∷ []

abbrev pub live_event_fields : LiveEvent → List Cell
live_event_fields r =
    text r.live_item_guid
    ∷ text r.title
    ∷ opt_text r.content_link
    ∷ text r.status
    ∷ opt_int r.scheduled_start
    ∷ opt_int r.scheduled_end
    ∷ opt_text r.live_value_uri
    ∷ opt_text r.live_value_protocol
    ∷ []

unfoldable pub feed_fields_changed : Feed → Feed → Bool
unfolding cells_eq
feed_fields_changed existing new = row_differs feed_fields existing new

unfoldable pub track_fields_changed : Track → Track → Bool
unfolding cells_eq
track_fields_changed existing new = row_differs track_fields existing new

unfoldable pub feed_routes_changed : List FeedPaymentRoute → List FeedPaymentRoute → Bool
unfolding cells_eq any_pair
feed_routes_changed existing new = rows_changed feed_route_fields existing new

unfoldable pub feed_list_values_changed : List FeedListValueRaw → List FeedListValueRaw → Bool
unfolding cells_eq any_pair
feed_list_values_changed existing new = rows_changed list_value_fields existing new

unfoldable pub feed_remote_items_changed : List FeedRemoteItemRaw → List FeedRemoteItemRaw → Bool
unfolding cells_eq any_pair
feed_remote_items_changed existing new = rows_changed remote_item_fields existing new

unfoldable pub track_remote_items_changed : List TrackRemoteItemRaw → List TrackRemoteItemRaw → Bool
unfolding cells_eq any_pair
track_remote_items_changed existing new = rows_changed track_remote_item_fields existing new

unfoldable pub live_events_changed : List LiveEvent → List LiveEvent → Bool
unfolding cells_eq any_pair
live_events_changed existing new = rows_changed live_event_fields existing new
