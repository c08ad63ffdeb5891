-- ===== src/Sync/Tests.antt =====
-- Runs of the replication on a small log.
use stophammer.Common.{
  ℕ, ◌≤◌, ◌≡◌, refl, Bool, true, false, not, Option, some, List, [], ◌∷◌, String, str_eq, select,
  any, length, arith, if◌then◌else◌,
}
use stophammer.Common.Int.{ℤ, pos, ◌+ℤ◌, ◌≤ℤ◌}
use stophammer.Common.Keyed.{find, put}
use stophammer.Sync.Log.{Event, max_seq, has_event, after, get_node_sync_cursor}
use stophammer.Sync.Apply.{
  Writer, Replica, apply_single_event, apply_events, apply_batch, apply_single_event_inner,
}
use stophammer.Sync.Order.{IsLog}
use stophammer.Sync.Appended.{Extends, apply_events-IsLog, apply_events-Extends}
use stophammer.Sync.Cursor.{apply_events-cursor}
use stophammer.Sync.Again.{IsRepeat, apply_events-again}
use stophammer.Sync.Counts.{IsAtomic, apply_single_event-IsAtomic}
use stophammer.Sync.Serve.{SyncEventsResponse, capped_limit, handle_sync_events}
use stophammer.Sync.Pages.{read_pages, read_pages-after}
use stophammer.Sync.Pull.{Pushing, handle_sync_push, drain}
use stophammer.Sync.Trust.{GrowsBy, handle_sync_push-GrowsBy, drain-bounds}

-- The tables are the payloads written; the payload "full" cannot be written.
abbrev w : Writer (List String) String
w = record {
  decode = λ e. some e.payload_json;
  write = λ e p t. if str_eq p "full" then (t, false) else (p ∷ t, true);
}

abbrev event : String → String → String → ℤ → Event
event id payload signer seq = record {
  event_id = id;
  event_type = "feed_upserted";
  payload_json = payload;
  subject_guid = "g";
  signed_by = signer;
  signature = "s";
  seq = seq;
  created_at = pos 1;
}

abbrev verify : Event → Bool
verify e = not (str_eq e.signature "")

abbrev events : List Event
events =
    event "a" "one" "primary" (pos 7)
    ∷ event "b" "full" "primary" (pos 8)
    ∷ event "c" "three" "stranger" (pos 9)
    ∷ []

abbrev empty : Replica (List String)
empty = record { log = []; cursors = []; tables = [] }

runs : Unit {0}
unfolding apply_events apply_batch apply_single_event_inner has_event any max_seq ◌+ℤ◌ find put
    select after handle_sync_events capped_limit
runs = tt

-- The event that failed stays in the log, with its payload not written.
failed_write_test :
    ((apply_events w verify (pos 0) true empty events).0.tables ≡ ("three" ∷ "one" ∷ []))
    × (length (apply_events w verify (pos 0) true empty events).0.log ≡ 3)
    × ((apply_events w verify (pos 0) true empty events).1.n_rejected ≡ 1)
unfolding runs
failed_write_test = (refl, refl, refl)

apply_events-IsLog_example : IsLog (apply_events w verify (pos 0) true empty events).0.log
apply_events-IsLog_example =
    apply_events-IsLog w verify (pos 0) true empty events
      (record { ordered = tt; once = λ k. omega arith })

apply_events-Extends_example :
    Extends verify events [] (apply_events w verify (pos 0) true empty events).0.log
apply_events-Extends_example = apply_events-Extends w verify (pos 0) true empty events

apply_events-cursor_example :
    get_node_sync_cursor empty.cursors "primary_sync_cursor"
    ≤ℤ get_node_sync_cursor
        (apply_events w verify (pos 0) true empty events).0.cursors
        "primary_sync_cursor"
apply_events-cursor_example =
    apply_events-cursor w verify (pos 0) true empty events "primary_sync_cursor"

apply_events-again_example :
    IsRepeat w verify events (apply_events w verify (pos 0) true empty events).0 (
      apply_events w verify (pos 5) true (apply_events w verify (pos 0) true empty events).0 events)
unfolding select
apply_events-again_example =
    apply_events-again w verify events (pos 0) (pos 5) empty (refl, (refl, (refl, tt)))

apply_single_event-IsAtomic_example :
    IsAtomic w empty
      (event "b" "full" "primary" (pos 8))
      (apply_single_event w (pos 0) empty (event "b" "full" "primary" (pos 8)))
apply_single_event-IsAtomic_example =
    apply_single_event-IsAtomic w (pos 0) empty (event "b" "full" "primary" (pos 8))

abbrev log : List Event
log =
    event "a" "one" "primary" (pos 1)
    ∷ event "b" "two" "primary" (pos 2)
    ∷ event "c" "three" "primary" (pos 4)
    ∷ []

read_pages-after_example : read_pages 2 log (pos 1) (some (pos 2)) ≡ after (pos 1) log
unfolding runs
read_pages-after_example =
    read_pages-after log ((omega arith, (omega arith, tt)), ((omega arith, tt), (tt, tt)))
      (some (pos 2)) 2 (pos 1) (omega arith)

abbrev node : Pushing (List String)
node = record { db = empty; last_push_at = pos 0 }

handle_sync_push-GrowsBy_example :
    GrowsBy "primary" [] (handle_sync_push w verify "primary" (pos 3) true node events).0.db.log
handle_sync_push-GrowsBy_example =
    handle_sync_push-GrowsBy w verify "primary" (pos 3) true node events

abbrev reply : ℕ → ℤ → Option SyncEventsResponse
reply k seq = some (record { events = events; has_more = true; next_seq = pos 9 })

drain-bounds_example :
    ((drain w verify 100 (λ k. true) (pos 0) reply 0 (empty, pos 0)).2 ≤ 100)
    × (pos 0 ≤ℤ (drain w verify 100 (λ k. true) (pos 0) reply 0 (empty, pos 0)).1)
drain-bounds_example = drain-bounds w verify 100 (λ k. true) (pos 0) reply 0 empty (pos 0)
