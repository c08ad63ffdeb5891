-- ===== src/Copies/Settled.antt =====
-- A second request with an unchanged body, in `record_feed_copy_for_ingest` (src/api.rs).
use stophammer.Common.{
  ◌≡◌, refl, ap, ◌∙◌, Bool, true, false, not, Option, none, some, List, [], String, str_eq, eq_iff,
  opt_eq, opt_eq_iff, leb, Bool-cases, inl, inr, arith,
}
use stophammer.Common.Int.{ℤ}
use stophammer.Common.Keyed.{map_row}
use stophammer.Copies.Table.{
  seen_at, new_copy, CopySummary, FeedCopyRow, is_copy, get_feed_copy, count_feed_copies,
  with_summary, upsert_with, upsert_feed_copy_summary, touch_feed_copy_last_seen,
}
use stophammer.Copies.Record.{
  max_copies_per_guid, CopyDb, is_changed, by_existing, record_feed_copy_for_ingest,
}
use stophammer.Copies.Limit.{touched-found, get_feed_copy-update_copy, get_feed_copy-append}

module _ (feed_guid url : String) (summary : CopySummary) (digest : String)
    (remote_items_digest : Option String) where
  same_text : (s : String) → str_eq s s ≡ true
  same_text s = (eq_iff s s).1 refl

  same_option : (s : Option String) → opt_eq s s ≡ true
  same_option s = (opt_eq_iff s s).1 refl

  is_changed-summary :
      (now : ℤ) (r : FeedCopyRow)
      → r.summary ≡ summary
      → r.summary_digest ≡ digest
      → r.remote_items_digest ≡ remote_items_digest
      → is_changed feed_guid url summary digest remote_items_digest now r ≡ false
  unfolding is_changed
  is_changed-summary now r s d i =
      rw (s, d, i)
        (ground (
          arith,
          same_text digest,
          same_text summary.title,
          same_option remote_items_digest,
          same_option summary.item_titles,
          same_option summary.image_url,
          same_option summary.item_durations,
          same_option summary.item_enclosure_urls,
          same_option summary.item_pub_dates,
          same_option summary.author,
        ))

  abbrev is_quiet : ℤ → Option FeedCopyRow → Bool
  is_quiet now none = false
  is_quiet now (some r) = not (is_changed feed_guid url summary digest remote_items_digest now r)

  seen_at-quiet :
      (now later : ℤ) (o : Option FeedCopyRow)
      → is_quiet later (map_row (seen_at now) o) ≡ is_quiet later o
  unfolding is_changed
  seen_at-quiet now later none = refl
  seen_at-quiet now later (some r) = refl

  upsert_with-quiet :
      (later first : ℤ) (rows : List FeedCopyRow) (o : Option FeedCopyRow)
      → get_feed_copy rows feed_guid url ≡ o
      → is_quiet later (
          get_feed_copy
            (upsert_with rows feed_guid url first summary digest remote_items_digest o)
            feed_guid
            url)
        ≡ true
  upsert_with-quiet later first rows none h =
      let own : is_copy feed_guid url
            (new_copy feed_guid url first summary digest remote_items_digest)
          ≡ true =
        ground (arith, same_text feed_guid, same_text url) in
      ap (is_quiet later) (get_feed_copy-append rows _ feed_guid url h own)
      ∙ ap not (is_changed-summary later _ refl refl refl)
  upsert_with-quiet later first rows (some row) h =
      ap (is_quiet later) (
        get_feed_copy-update_copy (λ r. with_summary r summary digest remote_items_digest) rows
          feed_guid url (λ r. refl) (λ r. refl)
        ∙ ap (map_row (λ r. with_summary r summary digest remote_items_digest)) h)
      ∙ ap not (is_changed-summary later _ refl refl refl)

  upserted-quiet :
      (later first : ℤ) (rows : List FeedCopyRow)
      → is_quiet later (
          get_feed_copy
            (upsert_feed_copy_summary rows feed_guid url first summary digest remote_items_digest)
            feed_guid
            url)
        ≡ true
  unfolding upsert_feed_copy_summary
  upserted-quiet later first rows =
      upsert_with-quiet later first rows (get_feed_copy rows feed_guid url) refl

  touched-quiet :
      (now later : ℤ) (rows : List FeedCopyRow)
      → is_quiet later
          (get_feed_copy (touch_feed_copy_last_seen rows feed_guid url now) feed_guid url)
        ≡ is_quiet later (get_feed_copy rows feed_guid url)
  touched-quiet now later rows =
      ap (is_quiet later) (touched-found feed_guid url summary digest remote_items_digest now rows)
      ∙ seen_at-quiet now later (get_feed_copy rows feed_guid url)

  quiet-none :
      (later : ℤ) (db : CopyDb) (o : Option FeedCopyRow)
      → is_quiet later o ≡ true
      → (by_existing feed_guid url summary digest remote_items_digest later db o).1 ≡ []
  quiet-none later db none q = cc
  quiet-none later db (some r) q =
      let same : is_changed feed_guid url summary digest remote_items_digest later r ≡ false =
        ground arith in
      rw same refl

  by_existing-again :
      (now later : ℤ) (db : CopyDb) (o : Option FeedCopyRow)
      → get_feed_copy db.copies feed_guid url ≡ o
      → (record_feed_copy_for_ingest feed_guid url summary digest remote_items_digest later
          (by_existing feed_guid url summary digest remote_items_digest now db o).0).1
        ≡ []
  unfolding record_feed_copy_for_ingest
  by_existing-again now later db none h =
      elim (Bool-cases (leb max_copies_per_guid (count_feed_copies db.copies feed_guid))) [
        | inl e ↦ rw (e, h, e) refl
        | inr e ↦
            rw e (
              quiet-none later _ _ (touched-quiet now later _ ∙ upserted-quiet later now db.copies))
      ]
  by_existing-again now later db (some row) h =
      elim (Bool-cases (is_changed feed_guid url summary digest remote_items_digest now row)) [
        | inl e ↦ rw e (quiet-none later _ _ (upserted-quiet later row.first_seen _))
        | inr e ↦ rw e (
            quiet-none later _ _
              (touched-quiet now later db.copies ∙ ap (is_quiet later) h ∙ ap not e))
      ]

  -- A request that is recorded a second time with the same body signs no event, whatever the first
  -- one did and whenever the second one comes.
  pub record_feed_copy_for_ingest-again :
      (now later : ℤ) (db : CopyDb)
      → (record_feed_copy_for_ingest feed_guid url summary digest remote_items_digest later
          (record_feed_copy_for_ingest feed_guid url summary digest remote_items_digest now db).0).1
        ≡ []
  unfolding record_feed_copy_for_ingest
  record_feed_copy_for_ingest-again now later db =
      by_existing-again now later db (get_feed_copy db.copies feed_guid url) refl
