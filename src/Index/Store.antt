-- ===== src/Index/Store.antt =====
-- The tables of a feed that are lists of rows (src/db.rs): DELETE and INSERT of all rows of a feed, the
-- queries with their ORDER BY, and the loops that drop a row with a key that came before. A table with
-- no ORDER BY is read as it was written. SQL statements are taken to succeed.
use stophammer.Common.{
  Option, List, [], ◌∷◌, ◌++◌, String, str_eq, map, select, not, if◌then◌else◌, none, some,
}
use stophammer.Common.Cells.{Cell, int}
use stophammer.Common.Sorting.{sort_by}
use stophammer.Index.Rows.{FeedPaymentRoute, FeedListValueRaw, FeedRemoteItemRaw}

module _ {ℓ} {A : Type ℓ} (feed_guid : A → String) where
  -- SELECT .. WHERE feed_guid = ?1.
  unfoldable pub rows_of : String → List A → List A
  unfolding select
  rows_of guid rows = select (λ r. str_eq (feed_guid r) guid) rows

  -- DELETE .. WHERE feed_guid = ?1.
  unfoldable pub without : String → List A → List A
  unfolding select
  without guid rows = select (λ r. not (str_eq (feed_guid r) guid)) rows

-- NULLIF(column, '').
abbrev pub nullif_empty : Option String → Option String
nullif_empty none = none
nullif_empty (some s) = if str_eq s "" then none else some s

abbrev pub feed_route_guid : FeedPaymentRoute → String
feed_route_guid r = r.feed_guid

abbrev pub feed_route_load : FeedPaymentRoute → FeedPaymentRoute
feed_route_load r = record r {
  custom_key = nullif_empty r.custom_key;
  custom_value = nullif_empty r.custom_value;
}

unfoldable pub get_feed_payment_routes_for_feed :
    List FeedPaymentRoute → String → List FeedPaymentRoute
unfolding rows_of
get_feed_payment_routes_for_feed rows guid = map feed_route_load (rows_of feed_route_guid guid rows)

unfoldable pub replace_feed_payment_routes :
    List FeedPaymentRoute → String → List FeedPaymentRoute → List FeedPaymentRoute
unfolding without
replace_feed_payment_routes rows guid new = without feed_route_guid guid rows ++ new

abbrev pub list_value_guid : FeedListValueRaw → String
list_value_guid r = r.feed_guid

abbrev pub list_value_order : FeedListValueRaw → List Cell
list_value_order r = int r.position ∷ []

abbrev pub list_value_load : FeedListValueRaw → FeedListValueRaw
list_value_load r = record r {
  custom_key = nullif_empty r.custom_key;
  custom_value = nullif_empty r.custom_value;
}

unfoldable pub get_feed_list_value_raw_for_feed :
    List FeedListValueRaw → String → List FeedListValueRaw
unfolding sort_by rows_of
get_feed_list_value_raw_for_feed rows guid =
    sort_by list_value_order (map list_value_load (rows_of list_value_guid guid rows))

unfoldable pub replace_feed_list_value_raw :
    List FeedListValueRaw → String → List FeedListValueRaw → List FeedListValueRaw
unfolding without
replace_feed_list_value_raw rows guid new = without list_value_guid guid rows ++ new

abbrev pub remote_item_guid : FeedRemoteItemRaw → String
remote_item_guid r = r.feed_guid

abbrev pub remote_item_order : FeedRemoteItemRaw → List Cell
remote_item_order r = int r.position ∷ []

unfoldable pub get_feed_remote_items_for_feed :
    List FeedRemoteItemRaw → String → List FeedRemoteItemRaw
unfolding sort_by rows_of
get_feed_remote_items_for_feed rows guid =
    sort_by remote_item_order (rows_of remote_item_guid guid rows)

unfoldable pub replace_feed_remote_items_raw :
    List FeedRemoteItemRaw → String → List FeedRemoteItemRaw → List FeedRemoteItemRaw
unfolding without
replace_feed_remote_items_raw rows guid new = without remote_item_guid guid rows ++ new
