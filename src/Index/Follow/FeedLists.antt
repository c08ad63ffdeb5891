-- ===== src/Index/Follow/FeedLists.antt =====
-- Each table of a feed on the primary and on a replica (src/db.rs): the rows that the primary writes, and
-- the rows that the event writes if there is one.
use stophammer.Common.{◌≡◌, Bool, false, List, String, map, if◌then◌else◌}
use stophammer.Common.Sorting.{sort_by, map-sort_by}
use stophammer.Index.Rows.{FeedPaymentRoute, FeedListValueRaw, FeedRemoteItemRaw}
use stophammer.Index.Store.{
  get_feed_payment_routes_for_feed, replace_feed_payment_routes, feed_route_guid,
  get_feed_list_value_raw_for_feed, replace_feed_list_value_raw, list_value_guid,
  get_feed_remote_items_for_feed, replace_feed_remote_items_raw, remote_item_guid, feed_route_load,
  list_value_load, list_value_order, remote_item_order,
}
use stophammer.Index.Compare.{feed_route_fields, list_value_fields, remote_item_fields}
use stophammer.Index.Loads.{
  sort_by-again, map-load-fields, map-load-again, sort_load-again, feed_route-shown,
  feed_route-again, list_value-shown, list_value-again,
}
use stophammer.Index.TableLaws.{IsOf, view-follows}

pub feed_route-follows :
    (g : String) (p r new : List FeedPaymentRoute) (test : Bool)
    → IsOf feed_route_guid g new
    → (test ≡ false
        → map feed_route_fields (get_feed_payment_routes_for_feed p g) ≡ map feed_route_fields new)
    → ((k : String)
        → map feed_route_fields (get_feed_payment_routes_for_feed p k)
          ≡ map feed_route_fields (get_feed_payment_routes_for_feed r k))
    → (k : String)
    → map feed_route_fields
        (get_feed_payment_routes_for_feed (replace_feed_payment_routes p g new) k)
      ≡ map feed_route_fields (
          get_feed_payment_routes_for_feed
            (if test then replace_feed_payment_routes r g new else r)
            k)
unfolding get_feed_payment_routes_for_feed replace_feed_payment_routes
feed_route-follows g p r new test own quiet agree k =
    view-follows feed_route_guid feed_route_fields (map feed_route_load)
      (map-load-fields feed_route_fields feed_route_load feed_route-shown feed_route-again)
      (map-load-again feed_route_fields feed_route_load feed_route-shown feed_route-again) g p r new
      test own quiet agree k

list_value-ordered :
    (a b : FeedListValueRaw)
    → list_value_fields a ≡ list_value_fields b
    → list_value_order a ≡ list_value_order b
list_value-ordered a b e = cc

pub list_value-follows :
    (g : String) (p r new : List FeedListValueRaw) (test : Bool)
    → IsOf list_value_guid g new
    → (test ≡ false
        → map list_value_fields (get_feed_list_value_raw_for_feed p g) ≡ map list_value_fields new)
    → ((k : String)
        → map list_value_fields (get_feed_list_value_raw_for_feed p k)
          ≡ map list_value_fields (get_feed_list_value_raw_for_feed r k))
    → (k : String)
    → map list_value_fields
        (get_feed_list_value_raw_for_feed (replace_feed_list_value_raw p g new) k)
      ≡ map list_value_fields (
          get_feed_list_value_raw_for_feed
            (if test then replace_feed_list_value_raw r g new else r)
            k)
unfolding get_feed_list_value_raw_for_feed replace_feed_list_value_raw
list_value-follows g p r new test own quiet agree k =
    view-follows list_value_guid list_value_fields
      (λ xs. sort_by list_value_order (map list_value_load xs))
      (λ xs ys e.
        map-sort_by list_value_order list_value_fields list_value-ordered (map list_value_load xs)
          (map list_value_load ys)
          (map-load-fields list_value_fields list_value_load list_value-shown list_value-again xs ys
            e))
      (sort_load-again list_value_fields list_value_load list_value-shown list_value-again
        list_value_order list_value-ordered)
      g p r new test own quiet agree k

remote_item-ordered :
    (a b : FeedRemoteItemRaw)
    → remote_item_fields a ≡ remote_item_fields b
    → remote_item_order a ≡ remote_item_order b
remote_item-ordered a b e = cc

pub remote_item-follows :
    (g : String) (p r new : List FeedRemoteItemRaw) (test : Bool)
    → IsOf remote_item_guid g new
    → (test ≡ false
        → map remote_item_fields (get_feed_remote_items_for_feed p g) ≡ map remote_item_fields new)
    → ((k : String)
        → map remote_item_fields (get_feed_remote_items_for_feed p k)
          ≡ map remote_item_fields (get_feed_remote_items_for_feed r k))
    → (k : String)
    → map remote_item_fields
        (get_feed_remote_items_for_feed (replace_feed_remote_items_raw p g new) k)
      ≡ map remote_item_fields (
          get_feed_remote_items_for_feed
            (if test then replace_feed_remote_items_raw r g new else r)
            k)
unfolding get_feed_remote_items_for_feed replace_feed_remote_items_raw
remote_item-follows g p r new test own quiet agree k =
    view-follows remote_item_guid remote_item_fields (sort_by remote_item_order)
      (map-sort_by remote_item_order remote_item_fields remote_item-ordered)
      (sort_by-again remote_item_order remote_item_fields) g p r new test own quiet agree k
