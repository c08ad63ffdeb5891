-- ===== src/Dispatch/Follows.antt =====
-- A replica that applies the signed events of an ingest as one batch (src/apply.rs, src/db.rs).
use stophammer.Common.{
  ◌≡◌, refl, sym, ap, subst, ◌∙◌, Bool, true, Option, List, [], ◌∷◌, ◌++◌, String, map, All,
}
use stophammer.Common.Int.{ℤ}
use stophammer.Copies.Table.{CopySummary}
use stophammer.Sync.Log.{Event}
use stophammer.Sync.Apply.{Replica, apply_events}
use stophammer.Index.Tables.{IndexDb}
use stophammer.Index.Events.{EventRow, Submission}
use stophammer.Index.Diff.{build_diff_events}
use stophammer.Index.Ingest.{ingest_transaction}
use stophammer.Index.Apply.{apply_rows}
use stophammer.Index.Follow.Agree.{IsProper, HasNoStray}
use stophammer.Index.Follow.OneTrack.{HasNoOrphan}
use stophammer.Index.Follow.SameRows.{Agree}
use stophammer.Index.Follow.Transaction.{ingest_transaction-Agree}
use stophammer.Dispatch.Payload.{
  NodeTables, EventPayload, row_payload, apply_payload, payload_writer,
}
use stophammer.Dispatch.Fresh.{AreNew, Carries, writes, apply_events-writes}

-- The events of the transaction, those of the removals last.
unfoldable pub ingest_event_rows : ℤ → List String → IndexDb → Submission → List EventRow
unfolding build_diff_events ingest_transaction
ingest_event_rows now warnings db s =
    build_diff_events now warnings db s ++ (ingest_transaction db s).1

abbrev pub payloads_of : List EventRow → List EventPayload
payloads_of event_rows = map (λ e. row_payload e.payload) event_rows

module _ (lower : String → String) (remote_items_digest : CopySummary → Option String)
    (decode : Event → Option EventPayload) where
  writes-index :
      (t : NodeTables) (events : List Event) (event_rows : List EventRow)
      → Carries (payload_writer lower remote_items_digest decode) events (payloads_of event_rows)
      → (writes
          (payload_writer lower remote_items_digest decode)
          t
          events
          (payloads_of event_rows)).index
        ≡ apply_rows t.index event_rows
  unfolding writes apply_rows payload_writer apply_payload
  writes-index t [] [] carries = refl
  writes-index t [] (r ∷ rest) carries = absurd carries
  writes-index t (e ∷ es) [] carries = absurd carries
  writes-index t (e ∷ es) (r ∷ rest) carries =
      writes-index (apply_payload lower remote_items_digest e (row_payload r.payload) t) es rest
        carries.1

  -- If a node agrees with the primary, then a node that receives the events of an ingest transaction in
  -- one batch agrees with the primary after it, where the batch commits, every signature verifies, no
  -- event is in the node's log or stands twice, and each event decodes to the payload that the primary
  -- made it of. Agreement covers the rows of every feed, its ten lists and live events, and the tracks
  -- of this feed with their remote items, in all fields but these, which a node may hold stale: the
  -- title in lower case, `created_at`, `updated_at`, `observed_at`, a feed's `episode_count`,
  -- `newest_item_at`, `oldest_item_at`, `last_build_date` and `release_artist_source`, the `rel` of a
  -- track's remote item, and a contributor's `role_norm`. Payment routes and value time splits of tracks
  -- are not covered. The submission names its feed in every row, names no track twice and, among the
  -- claims that the handler dedupes, no key twice; a feed that is not stored has no rows, and a track of
  -- the feed that is not stored has no remote items, those without a feed GUID included.
  pub apply_events-Agree :
      (verify : Event → Bool) (now later : ℤ) (warnings : List String) (db : IndexDb)
      (s : Submission) (node : Replica NodeTables) (events : List Event)
      → IsProper s
      → HasNoOrphan s.feed.feed_guid db
      → HasNoStray s.feed.feed_guid db
      → Agree s.feed.feed_guid db node.tables.index
      → All (λ e. verify e ≡ true) events
      → AreNew node.log events
      → Carries
          (payload_writer lower remote_items_digest decode)
          events
          (payloads_of (ingest_event_rows now warnings db s))
      → Agree s.feed.feed_guid
          (ingest_transaction db s).0
          (apply_events
            (payload_writer lower remote_items_digest decode)
            verify
            later
            true
            node
            events).0.tables.index
  unfolding ingest_event_rows
  apply_events-Agree verify now later warnings db s node events proper orphan stray agree verified
        new carries =
      let event_rows = ingest_event_rows now warnings db s in
      let w = payload_writer lower remote_items_digest decode in
      let written : (apply_events w verify later true node events).0.tables.index
          ≡ apply_rows node.tables.index event_rows =
        ap (λ t. t.index)
          (apply_events-writes w verify later node events (payloads_of event_rows) verified new
            carries)
        ∙ writes-index node.tables events event_rows carries in
      subst (Agree s.feed.feed_guid (ingest_transaction db s).0) (sym written)
        (ingest_transaction-Agree now warnings db node.tables.index s proper orphan stray agree)
