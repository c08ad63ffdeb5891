-- ===== src/Copies/Record.antt =====
-- `record_feed_copy_for_ingest` of src/api.rs. The summary of the body and its two digests are
-- arguments, and the event is what it is signed over.
use stophammer.Common.{
  ℕ, Bool, not, ◌||◌, Option, none, some, List, [], ◌∷◌, String, str_eq, opt_eq, leb, if◌then◌else◌,
}
use stophammer.Common.Int.{ℤ}
use stophammer.Copies.Table.{
  CopySummary, FeedCopyRow, get_feed_copy, count_feed_copies, upsert_feed_copy_summary,
  touch_feed_copy_last_seen, increment_copy_overflow,
}

abbrev pub max_copies_per_guid : ℕ
max_copies_per_guid = 20

pub record CopyObserved : Type 0 where
  pub feed_guid : String
  pub url : String
  pub first_seen : ℤ
  pub summary : CopySummary
  pub digest : String

pub record CopyDb : Type 0 where
  pub copies : List FeedCopyRow
  pub overflow : List (String × ℕ)

module _ (feed_guid url : String) (summary : CopySummary) (digest : String)
    (remote_items_digest : Option String) (now : ℤ) where
  unfoldable pub is_changed : FeedCopyRow → Bool
  is_changed row =
      not (str_eq digest row.summary_digest)
      || (not (str_eq summary.title row.summary.title)
          || (not (opt_eq summary.item_titles row.summary.item_titles)
              || (not (opt_eq summary.image_url row.summary.image_url)
                  || (not (opt_eq remote_items_digest row.remote_items_digest)
                      || (not (opt_eq summary.item_durations row.summary.item_durations)
                          || (not
                                (opt_eq summary.item_enclosure_urls row.summary.item_enclosure_urls)
                              || (not (opt_eq summary.item_pub_dates row.summary.item_pub_dates)
                                  || not (opt_eq summary.author row.summary.author))))))))

  abbrev pub observed : ℤ → List CopyObserved
  observed first_seen =
      record {
        feed_guid = feed_guid;
        url = url;
        first_seen = first_seen;
        summary = summary;
        digest = digest;
      }
      ∷ []

  abbrev pub upserted : ℤ → List FeedCopyRow → List FeedCopyRow
  upserted first_seen rows =
      upsert_feed_copy_summary rows feed_guid url first_seen summary digest remote_items_digest

  abbrev pub touched : List FeedCopyRow → List FeedCopyRow
  touched rows = touch_feed_copy_last_seen rows feed_guid url now

  abbrev pub with_copies : CopyDb → List FeedCopyRow → CopyDb
  with_copies db rows = record { copies = rows; overflow = db.overflow }

  abbrev pub by_existing : CopyDb → Option FeedCopyRow → CopyDb × List CopyObserved
  by_existing db (some row) =
      if is_changed row
      then (with_copies db (upserted row.first_seen (touched db.copies)), observed row.first_seen)
      else (with_copies db (touched db.copies), [])
  by_existing db none =
      if leb max_copies_per_guid (count_feed_copies db.copies feed_guid)
      then (
        record { copies = db.copies; overflow = increment_copy_overflow db.overflow feed_guid },
        [],
      )
      else (with_copies db (touched (upserted now db.copies)), observed now)

  unfoldable pub record_feed_copy_for_ingest : CopyDb → CopyDb × List CopyObserved
  unfolding is_changed upsert_feed_copy_summary touch_feed_copy_last_seen increment_copy_overflow
      count_feed_copies
  record_feed_copy_for_ingest db = by_existing db (get_feed_copy db.copies feed_guid url)
