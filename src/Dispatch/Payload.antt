-- ===== src/Dispatch/Payload.antt =====
-- The match of `apply_single_event_inner` over the payload types (src/apply.rs, src/event.rs), as the
-- `Writer` of Sync. SQL statements are taken to succeed. `lower` is `str::to_lowercase`,
-- `remote_items_digest` the digest of src/model.rs, and `decode` reads the payload from `payload_json`.
use stophammer.Common.{true, Option, List, String}
use stophammer.Sync.Log.{Event}
use stophammer.Sync.Apply.{Writer}
use stophammer.Index.Tables.{IndexDb}
use stophammer.Index.Events.{RowPayload}
use stophammer.Index.Apply.{apply_row_payload}
use stophammer.Blocks.Table.{FeedBlock, BlockDb, insert_feed_block, delete_feed_block}
use stophammer.Copies.Table.{
  CopySummary, Resolution, upsert_feed_copy_summary, set_feed_copy_resolution,
}
use stophammer.Copies.Record.{CopyObserved}
use stophammer.GuidChange.Table.{GuidChangeRow, GuidSupersessionRow, insert_guid_supersession}
use stophammer.GuidChange.Record.{
  GuidChangeObserved, GuidChangeDecided, apply_observed, apply_decided,
}
use stophammer.Dispatch.Observations.{FeedUrlObservation, upsert_feed_url_observation}

-- `BlockDb` holds the tables `feed_blocks` and `feed_copies`.
pub record NodeTables : Type 0 where
  pub index : IndexDb
  pub observations : List (String × FeedUrlObservation)
  pub block_db : BlockDb
  pub guid_changes : List (String × GuidChangeRow)
  pub supersessions : List (String × GuidSupersessionRow)

pub data EventPayload : Type 0 where
  artist_upserted : EventPayload
  artist_credit_created : EventPayload
  row_payload : RowPayload → EventPayload
  feed_url_observed : FeedUrlObservation → EventPayload
  feed_blocked : FeedBlock → EventPayload
  feed_unblocked : String → EventPayload
  feed_copy_observed : CopyObserved → EventPayload
  feed_copy_resolved : String → String → Resolution → EventPayload
  feed_guid_change_observed : GuidChangeObserved → EventPayload
  feed_guid_change_decided : GuidChangeDecided → EventPayload
  feed_guid_superseded : String → String → String → EventPayload

module _ (lower : String → String) (remote_items_digest : CopySummary → Option String) where
  unfoldable pub apply_payload : Event → EventPayload → NodeTables → NodeTables
  unfolding apply_row_payload upsert_feed_url_observation insert_feed_block delete_feed_block
      upsert_feed_copy_summary set_feed_copy_resolution apply_observed apply_decided
      insert_guid_supersession
  apply_payload ev artist_upserted t = t
  apply_payload ev artist_credit_created t = t
  apply_payload ev (row_payload p) t = record t { index = apply_row_payload t.index p }
  apply_payload ev (feed_url_observed p) t = record t {
    observations = upsert_feed_url_observation t.observations p.url p.feed_guid p.observed_at;
  }
  apply_payload ev (feed_blocked block) t = record t {
    block_db = (insert_feed_block lower t.block_db block).0;
  }
  apply_payload ev (feed_unblocked block_id) t = record t {
    block_db = record t.block_db {
      blocks = (delete_feed_block lower t.block_db.blocks block_id).0;
    };
  }
  apply_payload ev (feed_copy_observed p) t = record t {
    block_db = record t.block_db {
      copies =
          upsert_feed_copy_summary t.block_db.copies p.feed_guid p.url p.first_seen p.summary
            p.digest (remote_items_digest p.summary);
    };
  }
  apply_payload ev (feed_copy_resolved feed_guid url resolution) t = record t {
    block_db = record t.block_db {
      copies = set_feed_copy_resolution t.block_db.copies feed_guid url resolution;
    };
  }
  apply_payload ev (feed_guid_change_observed p) t = record t {
    guid_changes = apply_observed p t.guid_changes;
  }
  apply_payload ev (feed_guid_change_decided p) t = record t {
    guid_changes = apply_decided p t.guid_changes;
  }
  apply_payload ev (feed_guid_superseded old_guid new_guid source_url) t = record t {
    supersessions =
        insert_guid_supersession t.supersessions old_guid new_guid source_url ev.created_at;
  }

  unfoldable pub payload_writer : (Event → Option EventPayload) → Writer NodeTables EventPayload
  unfolding apply_payload
  payload_writer decode = record { decode = decode; write = λ ev p t. (apply_payload ev p t, true) }
