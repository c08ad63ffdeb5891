-- ===== src/Copies/Table.antt =====
-- The tables `feed_copies` and `feed_copy_overflow` (src/db.rs). A list or a map of a summary is its
-- JSON text, as the table stores it. SQL statements are taken to succeed.
use stophammer.Common.{
  ℕ, ◌+◌, Bool, true, false, not, ◌&&◌, ◌||◌, Option, none, some, List, [], ◌∷◌, ◌++◌, String,
  str_eq, opt_eq, select, length, if◌then◌else◌,
}
use stophammer.Common.Int.{ℤ}
use stophammer.Common.Keyed.{find, put}

pub record CopySummary : Type 0 where
  pub title : String
  pub item_guids : String
  pub item_titles : Option String
  pub image_url : Option String
  pub remote_items : Option String
  pub item_durations : Option String
  pub item_enclosure_urls : Option String
  pub item_pub_dates : Option String
  pub author : Option String
  pub feed_recipients : String
  pub track_recipients : String

pub record Resolution : Type 0 where
  pub decision : String
  pub reason : String
  pub resolved_at : ℤ
  pub resolved_digest : String
  pub resolved_remote_items_digest : Option String

pub record FeedCopyRow : Type 0 where
  pub feed_guid : String
  pub url : String
  pub first_seen : ℤ
  pub last_seen : Option ℤ
  pub summary : CopySummary
  pub summary_digest : String
  pub remote_items_digest : Option String
  pub resolution : Option Resolution

abbrev pub is_copy : String → String → FeedCopyRow → Bool
is_copy feed_guid url row = str_eq row.feed_guid feed_guid && str_eq row.url url

unfoldable pub get_feed_copy : List FeedCopyRow → String → String → Option FeedCopyRow
get_feed_copy [] feed_guid url = none
get_feed_copy (row ∷ rest) feed_guid url =
    if is_copy feed_guid url row then some row else get_feed_copy rest feed_guid url

unfoldable pub count_feed_copies : List FeedCopyRow → String → ℕ
count_feed_copies rows feed_guid = length (select (λ row. str_eq row.feed_guid feed_guid) rows)

abbrev pub with_summary : FeedCopyRow → CopySummary → String → Option String → FeedCopyRow
with_summary row summary digest remote_items_digest = record {
  feed_guid = row.feed_guid;
  url = row.url;
  first_seen = row.first_seen;
  last_seen = row.last_seen;
  summary = summary;
  summary_digest = digest;
  remote_items_digest = remote_items_digest;
  resolution = row.resolution;
}

unfoldable pub update_copy :
    (FeedCopyRow → FeedCopyRow) → List FeedCopyRow → String → String → List FeedCopyRow
update_copy f [] feed_guid url = []
update_copy f (row ∷ rest) feed_guid url =
    (if is_copy feed_guid url row then f row else row) ∷ update_copy f rest feed_guid url

abbrev pub new_copy : String → String → ℤ → CopySummary → String → Option String → FeedCopyRow
new_copy feed_guid url first_seen summary digest remote_items_digest = record {
  feed_guid = feed_guid;
  url = url;
  first_seen = first_seen;
  last_seen = none;
  summary = summary;
  summary_digest = digest;
  remote_items_digest = remote_items_digest;
  resolution = none;
}

abbrev pub upsert_with :
    List FeedCopyRow
    → String
    → String
    → ℤ
    → CopySummary
    → String
    → Option String
    → Option FeedCopyRow
    → List FeedCopyRow
upsert_with rows feed_guid url first_seen summary digest remote none =
    rows ++ (new_copy feed_guid url first_seen summary digest remote ∷ [])
upsert_with rows feed_guid url first_seen summary digest remote (some row) =
    update_copy (λ r. with_summary r summary digest remote) rows feed_guid url

-- INSERT .. ON CONFLICT (feed_guid, url) DO UPDATE of the summary columns.
unfoldable pub upsert_feed_copy_summary :
    List FeedCopyRow → String → String → ℤ → CopySummary → String → Option String → List FeedCopyRow
unfolding get_feed_copy update_copy
upsert_feed_copy_summary rows feed_guid url first_seen summary digest remote_items_digest =
    upsert_with rows feed_guid url first_seen summary digest remote_items_digest
      (get_feed_copy rows feed_guid url)

abbrev pub seen_at : ℤ → FeedCopyRow → FeedCopyRow
seen_at now r = record {
  feed_guid = r.feed_guid;
  url = r.url;
  first_seen = r.first_seen;
  last_seen = some now;
  summary = r.summary;
  summary_digest = r.summary_digest;
  remote_items_digest = r.remote_items_digest;
  resolution = r.resolution;
}

unfoldable pub touch_feed_copy_last_seen : List FeedCopyRow → String → String → ℤ → List FeedCopyRow
unfolding update_copy
touch_feed_copy_last_seen rows feed_guid url now = update_copy (seen_at now) rows feed_guid url

unfoldable pub set_feed_copy_resolution :
    List FeedCopyRow → String → String → Resolution → List FeedCopyRow
unfolding update_copy
set_feed_copy_resolution rows feed_guid url resolution =
    update_copy
      (λ r. record {
        feed_guid = r.feed_guid;
        url = r.url;
        first_seen = r.first_seen;
        last_seen = r.last_seen;
        summary = r.summary;
        summary_digest = r.summary_digest;
        remote_items_digest = r.remote_items_digest;
        resolution = some resolution;
      })
      rows feed_guid url

abbrev one_more : Option ℕ → ℕ
one_more none = 1
one_more (some count) = count + 1

unfoldable pub increment_copy_overflow : List (String × ℕ) → String → List (String × ℕ)
increment_copy_overflow rows feed_guid = put feed_guid (one_more (find feed_guid rows)) rows

abbrev or_zero : Option ℕ → ℕ
or_zero none = 0
or_zero (some count) = count

unfoldable pub get_copy_overflow : List (String × ℕ) → String → ℕ
get_copy_overflow rows feed_guid = or_zero (find feed_guid rows)

abbrev same_list : Option String → Option String → Bool
same_list none current = true
same_list (some digest) current = opt_eq (some digest) current

abbrev holds : FeedCopyRow → Option Resolution → Bool
holds row none = false
holds row (some r) =
    str_eq r.resolved_digest row.summary_digest
    && same_list r.resolved_remote_items_digest row.remote_items_digest

unfoldable pub copy_resolution_holds : FeedCopyRow → Bool
copy_resolution_holds row = holds row row.resolution

unfoldable pub is_open_copy : Bool → Bool → Bool → FeedCopyRow → Bool
unfolding copy_resolution_holds
is_open_copy differs_tracks differs_recipients differs_remote_items row =
    (differs_tracks || (differs_recipients || differs_remote_items))
    && not (copy_resolution_holds row)
