-- ===== src/Sync/Serve.antt =====
-- The sync handlers of a node that serves its log: `handle_sync_events` and `handle_sync_reconcile` of
-- src/api.rs with the queries of src/db.rs. The check of the sync token comes before both and is not
-- modelled. A set of ids is a list.
use stophammer.Common.{
  ℕ, ◌+◌, Bool, not, ◌&&◌, ◌||◌, Option, none, some, List, [], ◌∷◌, String, select, take, length,
  ltb, leb, ◌==◌, contains, map, if◌then◌else◌,
}
use stophammer.Common.Int.{ℤ, pos, pos_part, ltb_ℤ, leb_ℤ}
use stophammer.Sync.Log.{Event, max_ℤ, limit_rows, get_events_since}

pub record SyncEventsResponse : Type 0 where
  pub events : List Event
  pub has_more : Bool
  pub next_seq : ℤ

-- `Ord::clamp`.
abbrev clamp : ℤ → ℤ → ℤ → ℤ
clamp x low high = if ltb_ℤ x low then low else if ltb_ℤ high x then high else x

abbrev pub or_500 : Option ℤ → ℤ
or_500 none = pos 500
or_500 (some limit) = limit

unfoldable pub capped_limit : Option ℤ → ℤ
capped_limit limit = clamp (or_500 limit) (pos 1) (pos 1000)

-- `events.last().map_or(after_seq, |e| e.seq)`.
unfoldable pub last_seq : ℤ → List Event → ℤ
last_seq after_seq [] = after_seq
last_seq after_seq (e ∷ rest) = last_seq e.seq rest

unfoldable pub handle_sync_events : List Event → ℤ → Option ℤ → SyncEventsResponse
unfolding capped_limit last_seq get_events_since
handle_sync_events log after_seq limit =
    let events = get_events_since log after_seq (capped_limit limit) in
    record {
      events = events;
      has_more = length events == pos_part (capped_limit limit);
      next_seq = last_seq after_seq events;
    }

pub record EventRef : Type 0 where
  pub event_id : String
  pub seq : ℤ

pub record ReconcileResponse : Type 0 where
  pub send_to_node : List Event
  pub unknown_to_us : List EventRef
  pub has_more : Bool
  pub next_seq : ℤ

pub data Reconciled : Type 0 where
  bad_request : Reconciled
  reconciled : ReconcileResponse → Reconciled

abbrev pub ref_of : Event → EventRef
ref_of e = record { event_id = e.event_id; seq = e.seq }

-- The query takes one row more than the limit, to see that there are more.
unfoldable pub get_event_refs_since : List Event → ℤ → ℤ → List EventRef × Bool
get_event_refs_since log since_seq limit =
    let rows = take (limit_rows limit + 1) (map ref_of (select (λ e. leb_ℤ since_seq e.seq) log)) in
    (take (limit_rows limit) rows, ltb (limit_rows limit) (length rows))

abbrev pub ids_of : List EventRef → List String
ids_of refs = map (λ r. r.event_id) refs

-- `iter().map(|r| r.seq).max()`.
unfoldable pub max_ref : List EventRef → Option ℤ
max_ref [] = none
max_ref (r ∷ rest) = some (above (max_ref rest))
  where
    above : Option ℤ → ℤ
    above none = r.seq
    above (some m) = max_ℤ r.seq m

abbrev or_since : ℤ → Option ℤ → ℤ
or_since since_seq none = since_seq
or_since since_seq (some m) = m

abbrev pub max_reconcile_have : ℕ
max_reconcile_have = 10000

abbrev pub max_reconcile_refs : ℕ
max_reconcile_refs = 50000

abbrev pub max_reconcile_events : ℕ
max_reconcile_events = 10000

unfoldable pub handle_sync_reconcile : List Event → List EventRef → ℤ → Reconciled
unfolding get_event_refs_since max_ref get_events_since
handle_sync_reconcile log have since_seq =
    let (our_refs, refs_truncated) = get_event_refs_since log since_seq (pos max_reconcile_refs) in
    let our_ids = ids_of our_refs in
    let their_ids = ids_of have in
    let all_events = get_events_since log since_seq (pos max_reconcile_events) in
    if ltb max_reconcile_have (length have)
    then bad_request
    else reconciled (record {
      send_to_node =
          select (λ e. contains e.event_id our_ids && not (contains e.event_id their_ids))
            all_events;
      unknown_to_us = select (λ r. not (contains r.event_id our_ids)) have;
      has_more = refs_truncated || leb max_reconcile_events (length all_events);
      next_seq = or_since since_seq (max_ref our_refs);
    })
