-- ===== src/Index/Follow/FeedRow.antt =====
-- The row of the feed itself and its live events, on the primary and on a replica (src/db.rs).
use stophammer.Common.{
  ◌≡◌, refl, sym, ap, ◌∙◌, Bool, true, false, Option, none, some, List, [], ◌∷◌, ◌++◌, String,
  str_eq, eq_iff, map, Bool-cases, inl, inr, arith, if◌then◌else◌,
}
use stophammer.Common.Cells.{Cell}
use stophammer.Common.Sorting.{
  sort_by, dedupe_by, dedupe_by_distinct, sort_by-IsDistinctBy, dedupe_from-IsDistinctBy,
  sort_by-IsSortedBy, sort_by_sorted,
}
use stophammer.Index.Rows.{Feed, LiveEvent}
use stophammer.Index.Store.{rows_of, without}
use stophammer.Index.Compare.{feed_fields, live_event_fields}
use stophammer.Index.Tracks.{get_feed_by_guid, upsert_feed}
use stophammer.Index.Tables.{live_guid, live_key, dedupe_live_events, dedupe_and_sort_live_events}
use stophammer.Index.TableLaws.{IsOf, rows_of-replaced}

abbrev pub opt_fields {ℓ} : {A : Type ℓ} → (A → List Cell) → Option A → Option (List Cell)
opt_fields fields none = none
opt_fields fields (some a) = some (fields a)

upsert_feed-get :
    (feeds : List Feed) (f : Feed) (k : String)
    → opt_fields feed_fields (get_feed_by_guid (upsert_feed feeds f) k) ≡ (
        if str_eq f.feed_guid k
        then some (feed_fields f)
        else opt_fields feed_fields (get_feed_by_guid feeds k))
unfolding upsert_feed get_feed_by_guid
upsert_feed-get [] f k = elim (Bool-cases (str_eq f.feed_guid k)) [
  | inl e ↦ rw e refl
  | inr e ↦ rw e refl
]
upsert_feed-get (h ∷ rest) f k = elim (Bool-cases (str_eq h.feed_guid f.feed_guid)) [
  | inl e ↦ rw e (elim (Bool-cases (str_eq f.feed_guid k)) [
    | inl same ↦ rw same refl
    | inr other ↦
        let not_h : str_eq h.feed_guid k ≡ false =
          ground
            (arith, eq_iff h.feed_guid f.feed_guid, eq_iff h.feed_guid k, eq_iff f.feed_guid k) in
        rw (other, not_h) refl
  ])
  | inr e ↦ rw e (elim (Bool-cases (str_eq h.feed_guid k)) [
    | inl same ↦
        let not_f : str_eq f.feed_guid k ≡ false =
          ground
            (arith, eq_iff h.feed_guid f.feed_guid, eq_iff h.feed_guid k, eq_iff f.feed_guid k) in
        rw (same, not_f) refl
    | inr other ↦ rw other (upsert_feed-get rest f k)
  ])
]

pub feed-follows :
    (p r : List Feed) (f : Feed) (test : Bool)
    → (test ≡ false
        → opt_fields feed_fields (get_feed_by_guid p f.feed_guid) ≡ some (feed_fields f))
    → ((k : String)
        → opt_fields feed_fields (get_feed_by_guid p k)
          ≡ opt_fields feed_fields (get_feed_by_guid r k))
    → (k : String)
    → opt_fields feed_fields (get_feed_by_guid (upsert_feed p f) k)
      ≡ opt_fields feed_fields (get_feed_by_guid (if test then upsert_feed r f else r) k)
feed-follows p r f true quiet agree k =
    rw (upsert_feed-get p f k, upsert_feed-get r f k)
      (elim (Bool-cases (str_eq f.feed_guid k)) [ inl e ↦ rw e refl | inr e ↦ rw e (agree k) ])
feed-follows p r f false quiet agree k =
    rw (upsert_feed-get p f k) (elim (Bool-cases (str_eq f.feed_guid k)) [
      | inl e ↦ rw e (
          sym (quiet refl)
          ∙ agree f.feed_guid
          ∙ ap (λ g. opt_fields feed_fields (get_feed_by_guid r g)) ((eq_iff f.feed_guid k).0 e))
      | inr e ↦ rw e (agree k)
    ])

-- The rows in the order in which the code compares them.
abbrev pub live_view : List LiveEvent → String → List (List Cell)
live_view rows k = map live_event_fields (sort_by live_key (rows_of live_guid k rows))

dedupe_sorted :
    (rows : List LiveEvent)
    → dedupe_live_events (dedupe_and_sort_live_events rows) ≡ dedupe_and_sort_live_events rows
unfolding dedupe_and_sort_live_events dedupe_live_events dedupe_by
dedupe_sorted rows =
    dedupe_by_distinct live_key _
      (sort_by-IsDistinctBy live_key _ (dedupe_from-IsDistinctBy live_key [] rows))

sort_sorted :
    (rows : List LiveEvent)
    → sort_by live_key (dedupe_and_sort_live_events rows) ≡ dedupe_and_sort_live_events rows
unfolding dedupe_and_sort_live_events
sort_sorted rows = sort_by_sorted live_key _ (sort_by-IsSortedBy live_key (dedupe_live_events rows))

sorted_lem :
    (rows : List LiveEvent)
    → dedupe_and_sort_live_events rows ≡ sort_by live_key (dedupe_live_events rows)
unfolding dedupe_and_sort_live_events
sorted_lem rows = refl

pub live-follows :
    (g : String) (p r new : List LiveEvent) (test : Bool)
    → IsOf live_guid g (dedupe_live_events new)
    → IsOf live_guid g (dedupe_and_sort_live_events new)
    → (test ≡ false → live_view p g ≡ map live_event_fields (dedupe_and_sort_live_events new))
    → ((k : String) → live_view p k ≡ live_view r k)
    → (k : String)
    → live_view (without live_guid g p ++ dedupe_live_events new) k
      ≡ live_view
          (if test
            then without live_guid g r ++ dedupe_live_events (dedupe_and_sort_live_events new)
            else r)
          k
live-follows g p r new true own sorted quiet agree k =
    rw
      (
        dedupe_sorted new,
        rows_of-replaced live_guid g k p (dedupe_live_events new) own,
        rows_of-replaced live_guid g k r (dedupe_and_sort_live_events new) sorted,
      )
      (elim (Bool-cases (str_eq g k)) [
        | inl e ↦ rw (e, sort_sorted new) (ap (map live_event_fields) (sym (sorted_lem new)))
        | inr e ↦ rw e (agree k)
      ])
live-follows g p r new false own sorted quiet agree k =
    rw (rows_of-replaced live_guid g k p (dedupe_live_events new) own)
      (elim (Bool-cases (str_eq g k)) [
        | inl e ↦ rw e (
            ap (map live_event_fields) (sym (sorted_lem new))
            ∙ sym (quiet refl)
            ∙ agree g
            ∙ ap (live_view r) ((eq_iff g k).0 e))
        | inr e ↦ rw e (agree k)
      ])
