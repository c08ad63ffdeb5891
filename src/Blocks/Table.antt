-- ===== src/Blocks/Table.antt =====
-- The table `feed_blocks` (src/db.rs), `FeedBlockKind` (src/model.rs) and the seeding from the
-- environment (src/blocks.rs). `lower` is `str::to_lowercase`. SQL statements are taken to succeed, and
-- the ids of new rows are an argument. `BlockDb` is the part
-- of the database that a new block writes.
use stophammer.Common.{
  ℕ, ◌+◌, Bool, true, false, not, ◌&&◌, ◌||◌, Option, none, some, List, [], ◌∷◌, ◌++◌, String,
  str_eq, any, select, map, is_some, if◌then◌else◌,
}
use stophammer.Common.Int.{ℤ}
use stophammer.Copies.Table.{FeedCopyRow}
use stophammer.Common.Text.{trim, split, is_empty}

pub data FeedBlockKind : Type 0 where
  guid : FeedBlockKind
  url : FeedBlockKind

pub record FeedBlock : Type 0 where
  pub block_id : String
  pub kind : FeedBlockKind
  pub value : String
  pub reason : String
  pub blocked_at : ℤ

pub record BlockDb : Type 0 where
  pub blocks : List FeedBlock
  pub copies : List FeedCopyRow

abbrev pub same_kind : FeedBlockKind → FeedBlockKind → Bool
same_kind guid guid = true
same_kind guid url = false
same_kind url guid = false
same_kind url url = true

-- `read_csv_env` and `blocks_from_env`, on the values of the two variables.
unfoldable pub read_csv_env : String → List String
unfolding split trim
read_csv_env value = select (λ s. not (is_empty s)) (map trim (split b',' value))

unfoldable pub blocks_from_env : String → String → List (FeedBlockKind × String)
unfolding read_csv_env
blocks_from_env guids urls =
    map (λ v. (guid, v)) (read_csv_env guids) ++ map (λ v. (url, v)) (read_csv_env urls)

module _ (lower : String → String) where
  unfoldable pub normalize : FeedBlockKind → String → String
  unfolding trim
  normalize guid value = lower (trim value)
  normalize url value = trim value

  abbrev pub is_pair : FeedBlockKind → String → FeedBlock → Bool
  is_pair kind value b = same_kind b.kind kind && str_eq b.value value

  abbrev pub first_pair : FeedBlockKind → String → List FeedBlock → Option FeedBlock
  first_pair kind value [] = none
  first_pair kind value (b ∷ rest) =
      if is_pair kind value b then some b else first_pair kind value rest

  unfoldable pub get_feed_block_by_pair : List FeedBlock → FeedBlockKind → String → Option FeedBlock
  unfolding normalize
  get_feed_block_by_pair blocks kind value = first_pair kind (normalize kind value) blocks

  abbrev pub stored : FeedBlock → FeedBlock
  stored b = record {
    block_id = b.block_id;
    kind = b.kind;
    value = normalize b.kind b.value;
    reason = b.reason;
    blocked_at = b.blocked_at;
  }

  -- DELETE FROM feed_copies WHERE url = value, for a URL block.
  abbrev pub clear_copies : FeedBlockKind → String → List FeedCopyRow → List FeedCopyRow
  clear_copies guid value copies = copies
  clear_copies url value copies = select (λ c. not (str_eq c.url value)) copies

  -- INSERT OR IGNORE, with the id as the key and UNIQUE (kind, value): the rows, and whether one was
  -- written.
  unfoldable pub insert_feed_block : BlockDb → FeedBlock → BlockDb × Bool
  unfolding normalize
  insert_feed_block db block =
      let value = normalize block.kind block.value in
      if any (λ b. str_eq b.block_id block.block_id) db.blocks
        || is_some (first_pair block.kind value db.blocks)
      then (db, false)
      else (
        record {
          blocks = db.blocks ++ (stored block ∷ []);
          copies = clear_copies block.kind value db.copies;
        },
        true,
      )

  unfoldable pub delete_feed_block : List FeedBlock → String → List FeedBlock × Bool
  delete_feed_block blocks block_id = (
    select (λ b. not (str_eq b.block_id block_id)) blocks,
    any (λ b. str_eq b.block_id block_id) blocks,
  )

  abbrev or_else : Option FeedBlock → Option FeedBlock → Option FeedBlock
  or_else (some b) later = some b
  or_else none later = later

  unfoldable pub find_url_block : List FeedBlock → List String → Option FeedBlock
  unfolding get_feed_block_by_pair
  find_url_block blocks [] = none
  find_url_block blocks (u ∷ rest) =
      let later = find_url_block blocks rest in
      if is_empty u then later else or_else (get_feed_block_by_pair blocks url u) later

  abbrev find_guid_block : List FeedBlock → Option String → Option FeedBlock
  find_guid_block blocks none = none
  find_guid_block blocks (some g) = get_feed_block_by_pair blocks guid g

  unfoldable pub find_feed_block : List FeedBlock → Option String → List String → Option FeedBlock
  unfolding find_url_block get_feed_block_by_pair
  find_feed_block blocks feed_guid urls =
      or_else (find_guid_block blocks feed_guid) (find_url_block blocks urls)

  -- `seed_blocks`: the rows and the blocks that a `FeedBlocked` event is signed for, with an id for
  -- each entry. The function returns the number of these.
  unfoldable pub seed_blocks :
      ℤ → (ℕ → String) → ℕ → BlockDb → List (FeedBlockKind × String) → BlockDb × List FeedBlock
  unfolding insert_feed_block
  seed_blocks now ids k db [] = (db, [])
  seed_blocks now ids k db ((kind, value) ∷ rest) =
      let block : FeedBlock = record {
        block_id = ids k;
        kind = kind;
        value = normalize kind value;
        reason = "seeded from environment";
        blocked_at = now;
      } in
      let next = insert_feed_block db block in
      let later = seed_blocks now ids (k + 1) next.0 rest in
      (later.0, if next.1 then block ∷ later.1 else later.1)
