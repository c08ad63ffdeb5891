-- ===== src/Sync/Log.antt =====
-- The tables `events` and `node_sync_state` (src/db.rs). The event log is a list in the order of `seq`:
-- an insert takes the largest `seq` plus one and stands last. SQL statements are taken to succeed.
use stophammer.Common.{
  ℕ, Bool, Option, none, some, List, [], ◌∷◌, ◌++◌, String, str_eq, any, select, take,
  if◌then◌else◌,
}
use stophammer.Common.Int.{ℤ, pos, pos_part, ◌+ℤ◌, ltb_ℤ}
use stophammer.Common.Keyed.{find, put}

pub record Event : Type 0 where
  pub event_id : String
  pub event_type : String
  pub payload_json : String
  pub subject_guid : String
  pub signed_by : String
  pub signature : String
  pub seq : ℤ
  pub created_at : ℤ

pub record SyncState : Type 0 where
  pub last_seq : ℤ
  pub last_seen_at : ℤ

abbrev pub max_ℤ : ℤ → ℤ → ℤ
max_ℤ a b = if ltb_ℤ a b then b else a

-- `COALESCE(MAX(seq),0)`: a `seq` is positive.
unfoldable pub max_seq : List Event → ℤ
max_seq [] = pos 0
max_seq (e ∷ rest) = max_ℤ e.seq (max_seq rest)

abbrev pub with_seq : Event → ℤ → Event
with_seq e seq = record {
  event_id = e.event_id;
  event_type = e.event_type;
  payload_json = e.payload_json;
  subject_guid = e.subject_guid;
  signed_by = e.signed_by;
  signature = e.signature;
  seq = seq;
  created_at = e.created_at;
}

unfoldable pub has_event : String → List Event → Bool
has_event event_id log = any (λ e. str_eq e.event_id event_id) log

-- INSERT OR IGNORE .. RETURNING seq: the log, and the new `seq` unless the id was there.
unfoldable pub insert_event_idempotent : List Event → Event → List Event × Option ℤ
unfolding max_seq has_event ◌+ℤ◌
insert_event_idempotent log ev =
    let seq = max_seq log +ℤ pos 1 in
    if has_event ev.event_id log then (log, none) else (log ++ (with_seq ev seq ∷ []), some seq)

-- SQLite reads a negative LIMIT as no limit; the code passes one or more.
abbrev pub limit_rows : ℤ → ℕ
limit_rows limit = pos_part (max_ℤ limit (pos 1))

unfoldable pub after : ℤ → List Event → List Event
after seq log = select (λ e. ltb_ℤ seq e.seq) log

-- SELECT .. WHERE seq > ?1 ORDER BY seq ASC LIMIT ?2.
unfoldable pub get_events_since : List Event → ℤ → ℤ → List Event
unfolding after
get_events_since log after_seq limit = take (limit_rows limit) (after after_seq log)

abbrev pub last_seq_of : Option SyncState → ℤ
last_seq_of none = pos 0
last_seq_of (some s) = s.last_seq

unfoldable pub get_node_sync_cursor : List (String × SyncState) → String → ℤ
get_node_sync_cursor rows node_pubkey = last_seq_of (find node_pubkey rows)

abbrev pub merged : Option SyncState → ℤ → ℤ → SyncState
merged none last_seq last_seen_at = record { last_seq = last_seq; last_seen_at = last_seen_at }
merged (some s) last_seq last_seen_at = record {
  last_seq = max_ℤ s.last_seq last_seq;
  last_seen_at = last_seen_at;
}

unfoldable pub upsert_node_sync_state :
    List (String × SyncState) → String → ℤ → ℤ → List (String × SyncState)
upsert_node_sync_state rows node_pubkey last_seq last_seen_at =
    put node_pubkey (merged (find node_pubkey rows) last_seq last_seen_at) rows
