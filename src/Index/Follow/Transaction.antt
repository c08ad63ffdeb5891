-- ===== src/Index/Follow/Transaction.antt =====
-- That a replica which applies the events of an ingest agrees with the primary (src/db.rs, src/apply.rs).
use stophammer.Common.{List, String, ◌++◌}
use stophammer.Common.Int.{ℤ}
use stophammer.Index.Tables.{IndexDb}
use stophammer.Index.Events.{Submission}
use stophammer.Index.Diff.{build_diff_events}
use stophammer.Index.Ingest.{ingest_transaction}
use stophammer.Index.Apply.{apply_rows}
use stophammer.Index.Follow.OneTrack.{HasNoOrphan}
use stophammer.Index.Follow.Agree.{IsProper, HasNoStray}
use stophammer.Index.Follow.SameRows.{Agree, Agree-cells, cells-Agree}
use stophammer.Index.Follow.Compared.{ingest_transaction-CellsAgree}

-- If a replica agrees with the primary, then the replica that applies the events which the primary makes
-- of a submission agrees with the primary after its transaction. Agreement covers the rows of every
-- feed, its ten lists and live events, and the tracks of this feed with their remote items, in all
-- fields but these, which a replica may hold stale: the title in lower case, `created_at`, `updated_at`,
-- `observed_at`, a feed's `episode_count`, `newest_item_at`, `oldest_item_at`, `last_build_date` and
-- `release_artist_source`, the `rel` of a track's remote item, and a contributor's `role_norm`. Payment
-- routes and value time splits of tracks are not covered. The submission names its feed in every row,
-- names no track twice and, among the claims that the handler dedupes, no key twice; a feed that is not
-- stored has no rows, and a track of the feed that is not stored has no remote items, those without a
-- feed GUID included.
pub ingest_transaction-Agree :
    (now : ℤ) (warnings : List String) (db r : IndexDb) (s : Submission)
    → IsProper s
    → HasNoOrphan s.feed.feed_guid db
    → HasNoStray s.feed.feed_guid db
    → Agree s.feed.feed_guid db r
    → Agree s.feed.feed_guid
        (ingest_transaction db s).0
        (apply_rows r (build_diff_events now warnings db s ++ (ingest_transaction db s).1))
ingest_transaction-Agree now warnings db r s proper orphan stray agree =
    cells-Agree s.feed.feed_guid (ingest_transaction db s).0
      (apply_rows r (build_diff_events now warnings db s ++ (ingest_transaction db s).1))
      (ingest_transaction-CellsAgree now warnings db r s proper orphan stray
        (Agree-cells s.feed.feed_guid db r agree))
