-- ===== src/Copies/Limit.antt =====
-- The limit on the copies of one GUID, and the events of `record_feed_copy_for_ingest` (src/api.rs).
use stophammer.Common.{
  ◌+◌, ◌≤◌, max, ◌≡◌, refl, ap, ◌∙◌, true, false, not, ◌&&◌, Option, none, some, List, [], ◌∷◌,
  ◌++◌, String, str_eq, eq_iff, leb, select, is_some, Bool-cases, inl, inr, arith, if◌then◌else◌,
}
use stophammer.Common.Int.{ℤ}
use stophammer.Common.Keyed.{map_row}
use stophammer.Copies.Table.{
  seen_at, CopySummary, FeedCopyRow, is_copy, get_feed_copy, count_feed_copies, with_summary,
  update_copy, upsert_with, upsert_feed_copy_summary, touch_feed_copy_last_seen,
}
use stophammer.Copies.Record.{
  max_copies_per_guid, CopyDb, is_changed, by_existing, record_feed_copy_for_ingest,
}

update_copy-count :
    (f : FeedCopyRow → FeedCopyRow) (rows : List FeedCopyRow) (g u k : String)
    → ((r : FeedCopyRow) → (f r).feed_guid ≡ r.feed_guid)
    → count_feed_copies (update_copy f rows g u) k ≡ count_feed_copies rows k
unfolding count_feed_copies update_copy select
update_copy-count f [] g u k h = refl
update_copy-count f (r ∷ rest) g u k h = ground (arith, update_copy-count f rest g u k h, h r)

count-append :
    (rows : List FeedCopyRow) (r : FeedCopyRow) (k : String)
    → count_feed_copies (rows ++ (r ∷ [])) k
      ≡ count_feed_copies rows k + (if str_eq r.feed_guid k then 1 else 0)
unfolding count_feed_copies select
count-append [] r k = ground arith
count-append (q ∷ rest) r k = ground (arith, count-append rest r k)

pub get_feed_copy-update_copy :
    (f : FeedCopyRow → FeedCopyRow) (rows : List FeedCopyRow) (g u : String)
    → ((r : FeedCopyRow) → (f r).feed_guid ≡ r.feed_guid)
    → ((r : FeedCopyRow) → (f r).url ≡ r.url)
    → get_feed_copy (update_copy f rows g u) g u ≡ map_row f (get_feed_copy rows g u)
unfolding get_feed_copy update_copy
get_feed_copy-update_copy f [] g u hg hu = refl
get_feed_copy-update_copy f (r ∷ rest) g u hg hu =
    ground (arith, get_feed_copy-update_copy f rest g u hg hu, hg r, hu r)

pub get_feed_copy-append :
    (rows : List FeedCopyRow) (r : FeedCopyRow) (g u : String)
    → get_feed_copy rows g u ≡ none
    → is_copy g u r ≡ true
    → get_feed_copy (rows ++ (r ∷ [])) g u ≡ some r
unfolding get_feed_copy
get_feed_copy-append [] r g u h c = ground arith
get_feed_copy-append (q ∷ rest) r g u h c = ground (arith, get_feed_copy-append rest r g u)

module _ (feed_guid url : String) (summary : CopySummary) (digest : String)
    (remote_items_digest : Option String) where
  touched-count :
      (now : ℤ) (rows : List FeedCopyRow) (k : String)
      → count_feed_copies (touch_feed_copy_last_seen rows feed_guid url now) k
        ≡ count_feed_copies rows k
  unfolding touch_feed_copy_last_seen
  touched-count now rows k = update_copy-count _ rows feed_guid url k (λ r. refl)

  upserted-count :
      (first : ℤ) (rows : List FeedCopyRow) (k : String)
      → count_feed_copies
          (upsert_feed_copy_summary rows feed_guid url first summary digest remote_items_digest)
          k
        ≡ count_feed_copies rows k
          + (if not (is_some (get_feed_copy rows feed_guid url)) && str_eq feed_guid k
              then 1
              else 0)
  unfolding upsert_feed_copy_summary
  upserted-count first rows k = by_row (get_feed_copy rows feed_guid url)
    where
      by_row :
          (o : Option FeedCopyRow)
          → count_feed_copies
              (upsert_with rows feed_guid url first summary digest remote_items_digest o)
              k
            ≡ count_feed_copies rows k + (if not (is_some o) && str_eq feed_guid k then 1 else 0)
      by_row none = count-append rows _ k
      by_row (some row) =
          let same =
            update_copy-count (λ r. with_summary r summary digest remote_items_digest) rows
              feed_guid url k (λ r. refl) in
          same ∙ omega arith

  -- The two writes for a URL that is new to the GUID.
  new-count :
      (now : ℤ) (rows : List FeedCopyRow) (k : String)
      → get_feed_copy rows feed_guid url ≡ none
      → leb max_copies_per_guid (count_feed_copies rows feed_guid) ≡ false
      → count_feed_copies
          (touch_feed_copy_last_seen
            (upsert_feed_copy_summary rows feed_guid url now summary digest remote_items_digest)
            feed_guid
            url
            now)
          k
        ≤ max (count_feed_copies rows k) max_copies_per_guid
  new-count now rows k h e =
      let touch =
        touched-count now
          (upsert_feed_copy_summary rows feed_guid url now summary digest remote_items_digest) k in
      let add = upserted-count now rows k in
      elim (Bool-cases (str_eq feed_guid k)) [
        | inl same ↦
            let k_is = ap (count_feed_copies rows) ((eq_iff feed_guid k).0 same) in
            rw (touch, add, h, same) (ground (arith, k_is, e))
        | inr other ↦ rw (touch, add, h, other) (ground arith)
      ]

  pub touched-found :
      (now : ℤ) (rows : List FeedCopyRow)
      → get_feed_copy (touch_feed_copy_last_seen rows feed_guid url now) feed_guid url
        ≡ map_row (seen_at now) (get_feed_copy rows feed_guid url)
  unfolding touch_feed_copy_last_seen
  touched-found now rows =
      get_feed_copy-update_copy (seen_at now) rows feed_guid url (λ r. refl) (λ r. refl)

  old-count :
      (now first : ℤ) (rows : List FeedCopyRow) (k : String) (row : FeedCopyRow)
      → get_feed_copy rows feed_guid url ≡ some row
      → count_feed_copies
          (upsert_feed_copy_summary
            (touch_feed_copy_last_seen rows feed_guid url now)
            feed_guid
            url
            first
            summary
            digest
            remote_items_digest)
          k
        ≡ count_feed_copies rows k
  old-count now first rows k row h =
      let touch = touched-count now rows k in
      let add = upserted-count first (touch_feed_copy_last_seen rows feed_guid url now) k in
      rw (add, touched-found now rows, h) (omega (arith, touch))

  by_existing-count :
      (now : ℤ) (db : CopyDb) (k : String) (o : Option FeedCopyRow)
      → get_feed_copy db.copies feed_guid url ≡ o
      → count_feed_copies
          (by_existing feed_guid url summary digest remote_items_digest now db o).0.copies
          k
        ≤ max (count_feed_copies db.copies k) max_copies_per_guid
  by_existing-count now db k none h =
      elim (Bool-cases (leb max_copies_per_guid (count_feed_copies db.copies feed_guid))) [
        | inl e ↦ rw e (omega arith)
        | inr e ↦ rw e (new-count now db.copies k h e)
      ]
  by_existing-count now db k (some row) h =
      let same = old-count now row.first_seen db.copies k row h in
      let touch = touched-count now db.copies k in
      elim (Bool-cases (is_changed feed_guid url summary digest remote_items_digest now row)) [
        | inl e ↦ rw e (omega (arith, same))
        | inr e ↦ rw e (omega (arith, touch))
      ]

  -- The copies of each GUID after a request is recorded are at most 20, or at most what they were.
  pub record_feed_copy_for_ingest-count :
      (now : ℤ) (db : CopyDb) (k : String)
      → count_feed_copies
          (record_feed_copy_for_ingest feed_guid url summary digest remote_items_digest now
            db).0.copies
          k
        ≤ max (count_feed_copies db.copies k) max_copies_per_guid
  unfolding record_feed_copy_for_ingest
  record_feed_copy_for_ingest-count now db k =
      by_existing-count now db k (get_feed_copy db.copies feed_guid url) refl
