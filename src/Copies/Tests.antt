-- ===== src/Copies/Tests.antt =====
-- Runs of `record_feed_copy_for_ingest` (src/api.rs).
use stophammer.Common.{◌≡◌, refl, none, some, List, select, [], String, length}
use stophammer.Common.Int.{pos}
use stophammer.Copies.Table.{CopySummary}
use stophammer.Copies.Record.{CopyObserved, CopyDb, record_feed_copy_for_ingest}
use stophammer.Copies.Settled.{record_feed_copy_for_ingest-again}

abbrev summary : CopySummary
summary = record {
  title = "A";
  item_guids = "[]";
  item_titles = some "{}";
  image_url = none;
  remote_items = none;
  item_durations = none;
  item_enclosure_urls = none;
  item_pub_dates = none;
  author = some "B";
  feed_recipients = "[]";
  track_recipients = "[]";
}

abbrev none_yet : CopyDb
none_yet = record { copies = []; overflow = [] }

abbrev url : String
url = "https://copy.example/feed"

abbrev once : CopyDb × List CopyObserved
once = record_feed_copy_for_ingest "g" url summary "d" none (pos 5) none_yet

once-events : length once.1 ≡ 1
unfolding record_feed_copy_for_ingest select
once-events = refl

changed-events : length (record_feed_copy_for_ingest "g" url summary "e" none (pos 6) once.0).1 ≡ 1
unfolding record_feed_copy_for_ingest select
changed-events = refl

record_feed_copy_for_ingest-again_example :
    (record_feed_copy_for_ingest "g" url summary "d" none (pos 6) once.0).1 ≡ []
record_feed_copy_for_ingest-again_example =
    record_feed_copy_for_ingest-again "g" url summary "d" none (pos 5) (pos 6) none_yet
