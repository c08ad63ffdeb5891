-- ===== src/Index/Follow/TrackRows.antt =====
-- The row and the remote items of a track after the writes of src/db.rs.
use stophammer.Common.{
  ◌≡◌, refl, sym, ap, ◌∙◌, true, false, Option, none, some, List, [], ◌∷◌, ◌++◌, String, str_eq,
  eq_iff, eq_refl, map, select, All, Bool-cases, inl, inr, arith, if◌then◌else◌,
}
use mathlib.Core.List.{append-nil}
use stophammer.Common.Cells.{Cell}
use stophammer.Common.Sorting.{sort_by, map-sort_by}
use stophammer.Index.Rows.{Track, TrackRemoteItemRaw}
use stophammer.Index.Splits.{is_of_track, given_or}
use stophammer.Index.Compare.{track_fields, track_remote_item_fields}
use stophammer.Index.Tracks.{
  is_track, get_track_for_feed, upsert_track, delete_track_row, without_items, item_row, read_item,
  track_item_order, replace_track_remote_items_raw_for_feed_track,
  get_track_remote_items_for_feed_track,
}
use stophammer.Index.Loads.{sort_by-again}
use stophammer.Index.Follow.FeedRow.{opt_fields}

abbrev pub track_view : List Track → String → String → Option (List Cell)
track_view tracks f t = opt_fields track_fields (get_track_for_feed tracks f t)

abbrev pub item_view :
    List (Option String × TrackRemoteItemRaw) → String → String → List (List Cell)
item_view rows f t = map track_remote_item_fields (get_track_remote_items_for_feed_track rows f t)

pub upsert_track-view :
    (tracks : List Track) (b : Track) (f t : String)
    → track_view (upsert_track tracks b) f t
      ≡ (if is_track f t b then some (track_fields b) else track_view tracks f t)
unfolding upsert_track get_track_for_feed
upsert_track-view [] b f t = elim (Bool-cases (is_track f t b)) [
  | inl e ↦ rw e refl
  | inr e ↦ rw e refl
]
upsert_track-view (h ∷ rest) b f t = elim (Bool-cases (is_track b.feed_guid b.track_guid h)) [
  | inl e ↦ rw e (elim (Bool-cases (is_track f t b)) [
    | inl same ↦ rw same refl
    | inr other ↦
        let not_h : is_track f t h ≡ false = ground (
          arith,
          eq_iff h.feed_guid b.feed_guid,
          eq_iff h.track_guid b.track_guid,
          eq_iff h.feed_guid f,
          eq_iff h.track_guid t,
          eq_iff b.feed_guid f,
          eq_iff b.track_guid t,
        ) in
        rw (other, not_h) refl
  ])
  | inr e ↦ rw e (elim (Bool-cases (is_track f t h)) [
    | inl same ↦
        let not_b : is_track f t b ≡ false = ground (
          arith,
          eq_iff h.feed_guid b.feed_guid,
          eq_iff h.track_guid b.track_guid,
          eq_iff h.feed_guid f,
          eq_iff h.track_guid t,
          eq_iff b.feed_guid f,
          eq_iff b.track_guid t,
        ) in
        rw (same, not_b) refl
    | inr other ↦ rw other (upsert_track-view rest b f t)
  ])
]

pub delete_track_row-get :
    (tracks : List Track) (f t u : String)
    → get_track_for_feed (delete_track_row tracks f t) f u
      ≡ (if str_eq t u then none else get_track_for_feed tracks f u)
unfolding delete_track_row get_track_for_feed select
delete_track_row-get [] f t u = ground arith
delete_track_row-get (h ∷ rest) f t u = ground (
  arith,
  delete_track_row-get rest f t u,
  eq_iff h.track_guid t,
  eq_iff h.track_guid u,
  eq_iff t u,
)

-- The rows of one track among those of the table.
abbrev pub items_of :
    List (Option String × TrackRemoteItemRaw)
    → String
    → String
    → List (Option String × TrackRemoteItemRaw)
items_of rows f t =
    select (λ (r : Option String × TrackRemoteItemRaw). is_of_track f t r.0 r.1.track_guid) rows

items_of-without :
    (rows : List (Option String × TrackRemoteItemRaw)) (f t u : String)
    → items_of (without_items rows f t) f u ≡ (if str_eq t u then [] else items_of rows f u)
unfolding select
items_of-without [] f t u = ground arith
items_of-without ((none, r) ∷ rest) f t u =
    ground
      (arith, items_of-without rest f t u, eq_iff r.track_guid t, eq_iff r.track_guid u, eq_iff t u)
items_of-without ((some g, r) ∷ rest) f t u =
    ground
      (arith, items_of-without rest f t u, eq_iff r.track_guid t, eq_iff r.track_guid u, eq_iff t u)

items_of-append :
    (xs ys : List (Option String × TrackRemoteItemRaw)) (f t : String)
    → items_of (xs ++ ys) f t ≡ items_of xs f t ++ items_of ys f t
unfolding select
items_of-append [] ys f t = refl
items_of-append (x ∷ xs) ys f t = ground (arith, items_of-append xs ys f t)

abbrev pub item_rows :
    String → String → List TrackRemoteItemRaw → List (Option String × TrackRemoteItemRaw)
item_rows f t items = map (λ i. item_row (given_or f i.feed_guid) t i) items

items_of-rows_other :
    (f t u : String) (items : List TrackRemoteItemRaw)
    → str_eq t u ≡ false
    → items_of (item_rows f t items) f u ≡ []
unfolding select
items_of-rows_other f t u [] h = refl
items_of-rows_other f t u (i ∷ rest) h = rw h (items_of-rows_other f t u rest h)

-- What a query reads of the rows that are written for the items of a track.
unfoldable pub written : String → String → List TrackRemoteItemRaw → List (List Cell)
unfolding select sort_by
written f t items =
    map track_remote_item_fields
      (sort_by track_item_order (map read_item (items_of (item_rows f t items) f t)))

pub replaced-view :
    (rows : List (Option String × TrackRemoteItemRaw)) (f t u : String)
    (items : List TrackRemoteItemRaw)
    → item_view (replace_track_remote_items_raw_for_feed_track rows f t items) f u
      ≡ (if str_eq t u then written f t items else item_view rows f u)
unfolding replace_track_remote_items_raw_for_feed_track get_track_remote_items_for_feed_track
    written
replaced-view rows f t u items =
    ap (λ l. map track_remote_item_fields (sort_by track_item_order (map read_item l)))
      (items_of-append (without_items rows f t) (item_rows f t items) f u)
    ∙ (elim (Bool-cases (str_eq t u)) [
      | inl e ↦
          rw (items_of-without rows f t u, e)
            (ap
              (λ k.
                map track_remote_item_fields
                  (sort_by track_item_order (map read_item (items_of (item_rows f t items) f k))))
              (sym ((eq_iff t u).0 e)))
      | inr e ↦
          rw (items_of-without rows f t u, items_of-rows_other f t u items e, e, append-nil) refl
    ])

pub deleted-view :
    (rows : List (Option String × TrackRemoteItemRaw)) (f t u : String)
    → item_view (without_items rows f t) f u ≡ (if str_eq t u then [] else item_view rows f u)
unfolding get_track_remote_items_for_feed_track
deleted-view rows f t u = elim (Bool-cases (str_eq t u)) [
  | inl e ↦ rw (items_of-without rows f t u, e) (unfold sort_by in refl)
  | inr e ↦ rw (items_of-without rows f t u, e) refl
]

-- An item names the feed of its track, or no feed.
abbrev pub AreOwn : String → List TrackRemoteItemRaw → Type 0
AreOwn f items = All (λ i. str_eq (given_or f i.feed_guid) f ≡ true) items

read-own :
    (f t : String) (items : List TrackRemoteItemRaw)
    → AreOwn f items
    → map track_remote_item_fields (map read_item (items_of (item_rows f t items) f t))
      ≡ map track_remote_item_fields items
unfolding select
read-own f t [] h = refl
read-own f t (i ∷ rest) h =
    rw (eq_refl, h.0) (ap (λ l. track_remote_item_fields i ∷ l) (read-own f t rest h.1))

track_item-ordered :
    (a b : TrackRemoteItemRaw)
    → track_remote_item_fields a ≡ track_remote_item_fields b
    → track_item_order a ≡ track_item_order b
track_item-ordered a b e = cc

-- If the stored items agree with the submitted ones, writing these changes nothing that is compared.
pub written-same :
    (rows : List (Option String × TrackRemoteItemRaw)) (f t : String)
    (items : List TrackRemoteItemRaw)
    → AreOwn f items
    → item_view rows f t ≡ map track_remote_item_fields items
    → written f t items ≡ item_view rows f t
unfolding written get_track_remote_items_for_feed_track
written-same rows f t items own same =
    map-sort_by track_item_order track_remote_item_fields track_item-ordered _ items
      (read-own f t items own)
    ∙ sym (map-sort_by track_item_order track_remote_item_fields track_item-ordered _ items same)
    ∙ sort_by-again track_item_order track_remote_item_fields (map read_item (items_of rows f t))
