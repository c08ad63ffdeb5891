-- ===== src/Sync/Cursor.antt =====
-- The sync cursor of src/db.rs under `apply_events` of src/apply.rs.
use stophammer.Common.{
  ◌≡◌, refl, sym, ap, subst, ◌∙◌, Bool, true, false, Option, none, some, List, String, str_eq,
  eq_iff, select-All, Bool-cases, inl, inr, ◌⊎◌, arith, if◌then◌else◌,
}
use stophammer.Common.Int.{ℤ, pos, ◌≤ℤ◌, ltb_ℤ}
use stophammer.Common.Keyed.{find, find-put}
use stophammer.Sync.Log.{
  Event, SyncState, max_ℤ, last_seq_of, merged, get_node_sync_cursor, upsert_node_sync_state,
  insert_event_idempotent,
}
use stophammer.Sync.Apply.{
  Writer, Replica, write_payload, after_insert, apply_single_event_inner, sync_cursor_key,
  apply_events,
}
use stophammer.Sync.Batch.{apply_events-keeps}

le-max_left : (a b : ℤ) → a ≤ℤ max_ℤ a b
le-max_left a b = ground arith

-- An upsert moves the cursor of its node to the larger of the two numbers, and no other cursor.
upsert_node_sync_state-cursor :
    (rows : List (String × SyncState)) (k j : String) (seq now : ℤ)
    → get_node_sync_cursor (upsert_node_sync_state rows k seq now) j ≡ (
        if str_eq k j
        then last_seq_of (some (merged (find j rows) seq now))
        else get_node_sync_cursor rows j)
unfolding get_node_sync_cursor upsert_node_sync_state
upsert_node_sync_state-cursor rows k j seq now =
    ap last_seq_of (find-put k j (merged (find k rows) seq now) rows)
    ∙ by_case (Bool-cases (str_eq k j))
  where
    by_case :
        (str_eq k j ≡ true) ⊎ (str_eq k j ≡ false)
        → last_seq_of (if str_eq k j then some (merged (find k rows) seq now) else find j rows) ≡ (
            if str_eq k j
            then last_seq_of (some (merged (find j rows) seq now))
            else last_seq_of (find j rows))
    by_case (inl e) = rw (e, (eq_iff k j).0 e) refl
    by_case (inr e) = rw e refl

upsert_node_sync_state-ge :
    (rows : List (String × SyncState)) (k j : String) (seq now : ℤ)
    → ltb_ℤ (pos 0) seq ≡ true
    → get_node_sync_cursor rows j ≤ℤ get_node_sync_cursor (upsert_node_sync_state rows k seq now) j
unfolding get_node_sync_cursor
upsert_node_sync_state-ge rows k j seq now positive =
    subst (λ c. last_seq_of (find j rows) ≤ℤ c)
      (sym (upsert_node_sync_state-cursor rows k j seq now)) (by_row (find j rows) (str_eq k j))
  where
    by_row :
        (o : Option SyncState) (b : Bool)
        → last_seq_of o ≤ℤ (if b then last_seq_of (some (merged o seq now)) else last_seq_of o)
    by_row none b = ground arith
    by_row (some s) b = ground arith

module _ {Tables Payload : Type 0} (w : Writer Tables Payload) where
  inner-cursors :
      (db : Replica Tables) (ev : Event) → (apply_single_event_inner w db ev).0.cursors ≡ db.cursors
  unfolding apply_single_event_inner
  inner-cursors db ev = by_insert (insert_event_idempotent db.log ev)
    where
      by_decode :
          (db2 : Replica Tables) (seq : ℤ) (o : Option Payload)
          → (write_payload w db2 ev seq o).0.cursors ≡ db2.cursors
      by_decode db2 seq none = refl
      by_decode db2 seq (some p) = refl

      by_insert : (r : List Event × Option ℤ) → (after_insert w db ev r).0.cursors ≡ db.cursors
      by_insert (log, none) = refl
      by_insert (log, some seq) = by_decode _ seq (w.decode ev)

  -- No batch moves a cursor back, whatever the events are and whatever the order they come in.
  pub apply_events-cursor :
      (verify : Event → Bool) (now : ℤ) (commits : Bool) (db : Replica Tables) (events : List Event)
      (node : String)
      → get_node_sync_cursor db.cursors node
        ≤ℤ get_node_sync_cursor (apply_events w verify now commits db events).0.cursors node
  apply_events-cursor verify now commits db events node =
      apply_events-keeps w
        (λ x. get_node_sync_cursor db.cursors node ≤ℤ get_node_sync_cursor x.cursors node)
        (λ ev. verify ev ≡ true)
        (λ x ev q h.
          subst (λ c. get_node_sync_cursor db.cursors node ≤ℤ get_node_sync_cursor c node)
            (sym (inner-cursors x ev)) h)
        verify now commits db events
        (λ seq x q h.
          omega (arith, h, upsert_node_sync_state-ge x.cursors sync_cursor_key node seq now q))
        (select-All verify events) (omega arith)
