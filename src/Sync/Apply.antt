-- ===== src/Sync/Apply.antt =====
-- `apply_single_event` and `apply_events` of src/apply.rs.
-- `Writer` stands for the tables behind the events: how a payload is read from `payload_json`, and the
-- writes of its arm in the match of `apply_single_event_inner`, with the tables they leave and whether
-- all of them succeeded. `verify` is the signature check, `now` the clock, and `commits` says that the
-- blocking task ends and its transaction commits. The events sent to SSE clients are not modelled.
use stophammer.Common.{
  ℕ, ◌+◌, Bool, true, false, not, Option, none, some, List, [], ◌∷◌, String, select, length,
  is_some, if◌then◌else◌,
}
use stophammer.Common.Int.{ℤ, pos, ltb_ℤ}
use stophammer.Sync.Log.{Event, SyncState, max_ℤ, insert_event_idempotent, upsert_node_sync_state}

pub record Writer (Tables : Type 0) (Payload : Type 0) : Type 0 where
  pub decode : Event → Option Payload
  pub write : Event → Payload → Tables → Tables × Bool

pub record Replica (Tables : Type 0) : Type 0 where
  pub log : List Event
  pub cursors : List (String × SyncState)
  pub tables : Tables

pub data ApplyOutcome : Type 0 where
  applied : ℤ → ApplyOutcome
  duplicate : ApplyOutcome
  failed : ApplyOutcome

pub record ApplySummary : Type 0 where
  pub n_applied : ℕ
  pub n_duplicate : ℕ
  pub n_rejected : ℕ
  pub max_seq : ℤ

abbrev pub sync_cursor_key : String
sync_cursor_key = "primary_sync_cursor"

module _ {Tables Payload : Type 0} (w : Writer Tables Payload) where
  abbrev pub outcome_of : ℤ → Bool → ApplyOutcome
  outcome_of seq true = applied seq
  outcome_of seq false = failed

  -- The event row is in the log; the payload is still to be written.
  abbrev pub write_payload :
      Replica Tables → Event → ℤ → Option Payload → Replica Tables × ApplyOutcome
  write_payload db ev seq none = (db, failed)
  write_payload db ev seq (some payload) =
      let (tables, succeeded) = w.write ev payload db.tables in
      (record { log = db.log; cursors = db.cursors; tables = tables }, outcome_of seq succeeded)

  abbrev pub after_insert :
      Replica Tables → Event → List Event × Option ℤ → Replica Tables × ApplyOutcome
  after_insert db ev (log, none) =
      (record { log = log; cursors = db.cursors; tables = db.tables }, duplicate)
  after_insert db ev (log, some seq) =
      write_payload (record { log = log; cursors = db.cursors; tables = db.tables }) ev seq
        (w.decode ev)

  unfoldable pub apply_single_event_inner : Replica Tables → Event → Replica Tables × ApplyOutcome
  unfolding insert_event_idempotent
  apply_single_event_inner db ev = after_insert db ev (insert_event_idempotent db.log ev)

  abbrev pub move_cursor : ℤ → ℤ → Replica Tables → Replica Tables
  move_cursor now seq db = record {
    log = db.log;
    cursors = upsert_node_sync_state db.cursors sync_cursor_key seq now;
    tables = db.tables;
  }

  -- A failure rolls the transaction back.
  abbrev pub finish_single :
      ℤ → Replica Tables → Event → Replica Tables × ApplyOutcome → Replica Tables × ApplyOutcome
  finish_single now db ev (db2, applied seq) = (move_cursor now ev.seq db2, applied seq)
  finish_single now db ev (db2, duplicate) = (db2, duplicate)
  finish_single now db ev (db2, failed) = (db, failed)

  unfoldable pub apply_single_event : ℤ → Replica Tables → Event → Replica Tables × ApplyOutcome
  unfolding apply_single_event_inner upsert_node_sync_state
  apply_single_event now db ev = finish_single now db ev (apply_single_event_inner db ev)

  -- What the loop over a batch carries.
  pub record Batch : Type 0 where
    pub db : Replica Tables
    pub summary : ApplySummary
    pub max_primary_seq : ℤ

  abbrev pub count_event : Event → Batch → Replica Tables × ApplyOutcome → Batch
  count_event ev b (db, applied local_seq) = record {
    db = db;
    summary = record {
      n_applied = b.summary.n_applied + 1;
      n_duplicate = b.summary.n_duplicate;
      n_rejected = b.summary.n_rejected;
      max_seq = max_ℤ (max_ℤ b.summary.max_seq local_seq) ev.seq;
    };
    max_primary_seq = max_ℤ b.max_primary_seq ev.seq;
  }
  count_event ev b (db, duplicate) = record {
    db = db;
    summary = record {
      n_applied = b.summary.n_applied;
      n_duplicate = b.summary.n_duplicate + 1;
      n_rejected = b.summary.n_rejected;
      max_seq = b.summary.max_seq;
    };
    max_primary_seq = max_ℤ b.max_primary_seq ev.seq;
  }
  count_event ev b (db, failed) = record {
    db = db;
    summary = record {
      n_applied = b.summary.n_applied;
      n_duplicate = b.summary.n_duplicate;
      n_rejected = b.summary.n_rejected + 1;
      max_seq = b.summary.max_seq;
    };
    max_primary_seq = b.max_primary_seq;
  }

  -- The loop of the transaction; `none` where the payload of an event does not decode, which ends the
  -- whole batch.
  unfoldable pub apply_batch : Batch → List Event → Option Batch
  unfolding apply_single_event_inner
  apply_batch b [] = some b
  apply_batch b (ev ∷ rest) =
      let later = apply_batch (count_event ev b (apply_single_event_inner b.db ev)) rest in
      if is_some (w.decode ev) then later else none

  abbrev pub no_events : ApplySummary
  no_events = record { n_applied = 0; n_duplicate = 0; n_rejected = 0; max_seq = pos 0 }

  abbrev pub reject : ℕ → ApplySummary → ApplySummary
  reject n s = record {
    n_applied = s.n_applied;
    n_duplicate = s.n_duplicate;
    n_rejected = s.n_rejected + n;
    max_seq = s.max_seq;
  }

  -- `max_primary_seq` starts at zero and the cursor moves only if it has grown.
  abbrev pub commit_batch :
      ℤ → Replica Tables → ℕ → ℕ → Option Batch → Replica Tables × ApplySummary
  commit_batch now db n_bad n_verified none = (db, reject (n_bad + n_verified) no_events)
  commit_batch now db n_bad n_verified (some b) = (
    if ltb_ℤ (pos 0) b.max_primary_seq then move_cursor now b.max_primary_seq b.db else b.db,
    reject n_bad b.summary,
  )

  abbrev pub start : Replica Tables → Batch
  start db = record { db = db; summary = no_events; max_primary_seq = pos 0 }

  abbrev pub is_empty : List Event → Bool
  is_empty [] = true
  is_empty (e ∷ rest) = false

  unfoldable pub apply_events :
      (Event → Bool) → ℤ → Bool → Replica Tables → List Event → Replica Tables × ApplySummary
  unfolding apply_batch
  apply_events verify now commits db events =
      let verified = select verify events in
      let n_bad = length (select (λ e. not (verify e)) events) in
      if is_empty verified
      then (db, reject n_bad no_events)
      else commit_batch now db n_bad (length verified)
          (if commits then apply_batch (start db) verified else none)
