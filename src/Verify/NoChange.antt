-- ===== src/Verify/NoChange.antt =====
-- The no-change answer of src/verifiers/content_hash.rs, read back by `is_no_change_reason` of
-- src/api.rs.
use stophammer.Common.{
  ◌≡◌, sym, ap, subst, ◌∙◌, Bool, true, false, some, List, [], ◌∷◌, ◌++◌, String, str_eq, eq_iff,
  arith, All, Option-cases, inl, inr,
}
use stophammer.Verify.Request.{IngestContext, VerifyResult, fail, Message, Labelled, err}
use stophammer.Verify.Rules.{content_hash, is_publisher_feed}
use stophammer.Verify.Chain.{
  Verifier, VerifierChain, started, run, build_chain, Arm, arm, built, skipped, unknown,
  is_no_change_reason,
}
use stophammer.Verify.Run.{FailsAt, run-Decides, Decides}
use stophammer.Verify.Config.{IsMadeBy, build_chain-Builds, Builds}

-- The check fails exactly on a known hash.
pub content_hash-fail :
    (ctx : IngestContext) (m : Message)
    → content_hash ctx ≡ fail m
    → (ctx.request.force_reingest ≡ false)
      × (is_publisher_feed ctx.request.feed_data ≡ false)
      × (ctx.crawl_cache ctx.request.canonical_url ≡ some ctx.request.content_hash)
unfolding content_hash
content_hash-fail ctx m h = elim (Option-cases (ctx.crawl_cache ctx.request.canonical_url)) [
  | inl e ↦ absurd (ground (arith, e))
  | inr (c, e) ↦
      let q : str_eq c ctx.request.content_hash ≡ true = ground (arith, e) in
      (ground (arith, e), ground (arith, e), e ∙ ap some ((eq_iff c ctx.request.content_hash).0 q))
]

All-at :
    (P : Verifier → Type 0) (before after : List Verifier) (v : Verifier)
    → All P (before ++ (v ∷ after))
    → P v
All-at P [] after v h = h.0
All-at P (b ∷ before) after v h = All-at P before after v h.1

abbrev verify_of : Verifier → Arm → IngestContext → VerifyResult
verify_of v (built w) = w.verify
verify_of v skipped = v.verify
verify_of v unknown = v.verify

made_as_hash :
    (is_uuid : String → Bool) (v : Verifier)
    → IsMadeBy is_uuid v
    → v.name ≡ "content_hash"
    → v.verify ≡ content_hash
unfolding arm
made_as_hash is_uuid v made named = sym (ap (verify_of v) (sym (ap (arm is_uuid) named) ∙ made))

-- A rejection of a chain that the node built reads as "no change" only where re-ingest is not forced,
-- the feed is no publisher feed, and the last crawl of the URL stored the same content hash.
pub no_change-hash :
    (is_uuid : String → Bool) (names : List String) (crawl_token : String) (chain : VerifierChain)
    (ctx : IngestContext) (reason : Labelled)
    → build_chain is_uuid names crawl_token ≡ started chain
    → run chain.verifiers ctx ≡ err reason
    → is_no_change_reason reason ≡ true
    → (ctx.request.force_reingest ≡ false)
      × (is_publisher_feed ctx.request.feed_data ≡ false)
      × (ctx.crawl_cache ctx.request.canonical_url ≡ some ctx.request.content_hash)
unfolding is_no_change_reason
no_change-hash is_uuid names crawl_token chain ctx reason b r n =
    let builds : Builds is_uuid names crawl_token (started chain) =
      subst (Builds is_uuid names crawl_token) b (build_chain-Builds is_uuid names crawl_token) in
    let at : FailsAt chain.verifiers ctx reason =
      subst (Decides chain.verifiers ctx) r (run-Decides chain.verifiers ctx) in
    let made : All (IsMadeBy is_uuid) (at.before ++ (at.failing ∷ at.after)) =
      subst (All (IsMadeBy is_uuid)) at.splits builds.0.2 in
    let labelled : str_eq reason.name "content_hash" ≡ true = ground arith in
    let named : at.failing.name ≡ "content_hash" =
      at.named ∙ (eq_iff reason.name "content_hash").0 labelled in
    let hash : at.failing.verify ≡ content_hash =
      made_as_hash is_uuid at.failing (All-at (IsMadeBy is_uuid) at.before at.after at.failing made)
        named in
    content_hash-fail ctx reason.message (sym (ap (λ f. f ctx) hash) ∙ at.fails)
