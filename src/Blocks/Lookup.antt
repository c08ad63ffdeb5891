-- ===== src/Blocks/Lookup.antt =====
-- Whether a block is found (src/db.rs).
use stophammer.Common.{
  ◌≡◌, refl, sym, ap, ◌∙◌, true, false, ◌&&◌, ◌||◌, List, [], ◌∷◌, ◌++◌, String, str_eq, eq_iff,
  any, is_some, Bool-cases, inl, inr, arith,
}
use stophammer.Blocks.Table.{
  FeedBlockKind, guid, url, FeedBlock, BlockDb, same_kind, normalize, is_pair, first_pair,
  get_feed_block_by_pair, stored, insert_feed_block,
}

module _ (lower : String → String) where
  first_pair-append :
      (kind : FeedBlockKind) (value : String) (blocks : List FeedBlock) (b : FeedBlock)
      → is_some (first_pair lower kind value (blocks ++ (b ∷ [])))
        ≡ (is_some (first_pair lower kind value blocks) || is_pair lower kind value b)
  first_pair-append kind value [] b = ground arith
  first_pair-append kind value (c ∷ blocks) b =
      ground (arith, first_pair-append kind value blocks b)

  same_kind_eq : (a b : FeedBlockKind) → same_kind a b ≡ true → a ≡ b
  same_kind_eq guid guid h = refl
  same_kind_eq guid url h = cc
  same_kind_eq url guid h = cc
  same_kind_eq url url h = refl

  -- A block that is new by its id is found by every spelling of its value that normalizes to the same
  -- text, and every other pair is found exactly if it was before: a GUID in any case and with spaces
  -- around it, a URL with spaces around it.
  pub insert_feed_block-found :
      (db : BlockDb) (block : FeedBlock) (kind : FeedBlockKind) (value : String)
      → any (λ b. str_eq b.block_id block.block_id) db.blocks ≡ false
      → is_some
          (get_feed_block_by_pair lower (insert_feed_block lower db block).0.blocks kind value)
        ≡ (is_some (get_feed_block_by_pair lower db.blocks kind value)
            || (same_kind block.kind kind
                && str_eq (normalize lower block.kind block.value) (normalize lower kind value)))
  unfolding get_feed_block_by_pair insert_feed_block
  insert_feed_block-found db block kind value fresh =
      elim (Bool-cases (
        is_some (first_pair lower block.kind (normalize lower block.kind block.value) db.blocks))) [
          | inr e ↦
              rw (fresh, e)
                (first_pair-append kind (normalize lower kind value) db.blocks (stored lower block))
          | inl e ↦
              rw (fresh, e)
                (elim (Bool-cases (
                  same_kind block.kind kind
                  && str_eq (normalize lower block.kind block.value)
                      (normalize lower kind value))) [
                        | inr d ↦ rw d (ground arith)
                        | inl d ↦
                            let k : block.kind ≡ kind =
                              same_kind_eq block.kind kind (ground arith) in
                            let v : normalize lower block.kind block.value
                                ≡ normalize lower kind value =
                              (eq_iff (normalize lower block.kind block.value)
                                  (normalize lower kind value)).0
                                (ground arith) in
                            let there : is_some
                                  (first_pair lower kind (normalize lower kind value) db.blocks)
                                ≡ true =
                              sym (
                                ap
                                  (λ x.
                                    is_some
                                      (first_pair lower x (normalize lower kind value) db.blocks))
                                  k)
                              ∙ sym (ap (λ x. is_some (first_pair lower block.kind x db.blocks)) v)
                              ∙ e in
                            rw d (there ∙ ground (arith, there))
                      ])
        ]
