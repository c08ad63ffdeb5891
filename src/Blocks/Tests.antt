-- ===== src/Blocks/Tests.antt =====
-- Runs of the blocks (src/db.rs, src/blocks.rs) with the identity in place of `str::to_lowercase`.
use stophammer.Common.{
  ◌≡◌, refl, Bool, true, ◌||◌, ◌&&◌, [], ◌∷◌, String, is_some, any, select, str_eq,
}
use stophammer.Common.Int.{pos}
use stophammer.Blocks.Table.{
  guid, url, FeedBlock, BlockDb, same_kind, normalize, get_feed_block_by_pair, insert_feed_block,
  blocks_from_env,
}
use stophammer.Blocks.Lookup.{insert_feed_block-found}

abbrev keep : String → String
keep s = s

abbrev no_blocks : BlockDb
no_blocks = record { blocks = []; copies = [] }

abbrev block : FeedBlock
block = record {
  block_id = "1";
  kind = url;
  value = " https://bad.example/feed ";
  reason = "r";
  blocked_at = pos 0;
}

abbrev after : BlockDb × Bool
after = insert_feed_block keep no_blocks block

blocks_from_env-run : blocks_from_env "a, b," " u " ≡ (guid, "a") ∷ (guid, "b") ∷ (url, "u") ∷ []
unfolding blocks_from_env select
blocks_from_env-run = refl

insert_feed_block-found_example :
    is_some (get_feed_block_by_pair keep after.0.blocks url "https://bad.example/feed") ≡ (
      is_some (get_feed_block_by_pair keep no_blocks.blocks url "https://bad.example/feed")
      || (same_kind url url
          && str_eq
              (normalize keep url block.value)
              (normalize keep url "https://bad.example/feed")))
unfolding any
insert_feed_block-found_example =
    insert_feed_block-found keep no_blocks block url "https://bad.example/feed" refl

found-now :
    is_some (get_feed_block_by_pair keep after.0.blocks url "https://bad.example/feed") ≡ true
unfolding get_feed_block_by_pair insert_feed_block any
found-now = refl
