-- ===== src/Index/ClaimStore.antt =====
-- The tables of the claims of a source (src/db.rs), as Store has those of the feed.
use stophammer.Common.{List, [], ◌∷◌, ◌++◌, String}
use stophammer.Common.Cells.{Cell, int, text, opt_text}
use stophammer.Common.Sorting.{sort_by, dedupe_by}
use stophammer.Index.Claims.{
  SourceContributorClaim, SourceEntityIdClaim, SourceEntityLink, SourceReleaseClaim,
  SourceItemEnclosure, SourceItemTranscript, SourcePlatformClaim,
}
use stophammer.Index.Store.{rows_of, without}

abbrev pub contributor_claim_guid : SourceContributorClaim → String
contributor_claim_guid r = r.feed_guid

abbrev pub contributor_claim_order : SourceContributorClaim → List Cell
contributor_claim_order r = text r.entity_type ∷ text r.entity_id ∷ int r.position ∷ []

abbrev pub contributor_claim_key : SourceContributorClaim → List Cell
contributor_claim_key r =
    text r.feed_guid ∷ text r.entity_type ∷ text r.entity_id ∷ int r.position ∷ text r.source ∷ []

unfoldable pub dedupe_source_contributor_claims :
    List SourceContributorClaim → List SourceContributorClaim
unfolding dedupe_by
dedupe_source_contributor_claims rows = dedupe_by contributor_claim_key rows

unfoldable pub get_source_contributor_claims_for_feed :
    List SourceContributorClaim → String → List SourceContributorClaim
unfolding sort_by rows_of
get_source_contributor_claims_for_feed rows guid =
    sort_by contributor_claim_order (rows_of contributor_claim_guid guid rows)

unfoldable pub replace_source_contributor_claims_for_feed :
    List SourceContributorClaim → String → List SourceContributorClaim → List SourceContributorClaim
unfolding without dedupe_source_contributor_claims
replace_source_contributor_claims_for_feed rows guid new =
    without contributor_claim_guid guid rows ++ dedupe_source_contributor_claims new

abbrev pub entity_id_guid : SourceEntityIdClaim → String
entity_id_guid r = r.feed_guid

abbrev pub entity_id_order : SourceEntityIdClaim → List Cell
entity_id_order r =
    text r.entity_type ∷ text r.entity_id ∷ int r.position ∷ text r.scheme ∷ text r.value ∷ []

abbrev pub entity_id_key : SourceEntityIdClaim → List Cell
entity_id_key r =
    text r.feed_guid ∷ text r.entity_type ∷ text r.entity_id ∷ text r.scheme ∷ text r.value ∷ []

unfoldable pub dedupe_source_entity_ids : List SourceEntityIdClaim → List SourceEntityIdClaim
unfolding dedupe_by
dedupe_source_entity_ids rows = dedupe_by entity_id_key rows

unfoldable pub get_source_entity_ids_for_feed :
    List SourceEntityIdClaim → String → List SourceEntityIdClaim
unfolding sort_by rows_of
get_source_entity_ids_for_feed rows guid =
    sort_by entity_id_order (rows_of entity_id_guid guid rows)

unfoldable pub replace_source_entity_ids_for_feed :
    List SourceEntityIdClaim → String → List SourceEntityIdClaim → List SourceEntityIdClaim
unfolding without dedupe_source_entity_ids
replace_source_entity_ids_for_feed rows guid new =
    without entity_id_guid guid rows ++ dedupe_source_entity_ids new

abbrev pub entity_link_guid : SourceEntityLink → String
entity_link_guid r = r.feed_guid

abbrev pub entity_link_order : SourceEntityLink → List Cell
entity_link_order r =
    text r.entity_type ∷ text r.entity_id ∷ int r.position ∷ text r.link_type ∷ text r.url ∷ []

abbrev pub entity_link_key : SourceEntityLink → List Cell
entity_link_key r =
    text r.feed_guid ∷ text r.entity_type ∷ text r.entity_id ∷ text r.link_type ∷ text r.url ∷ []

unfoldable pub dedupe_source_entity_links : List SourceEntityLink → List SourceEntityLink
unfolding dedupe_by
dedupe_source_entity_links rows = dedupe_by entity_link_key rows

unfoldable pub get_source_entity_links_for_feed :
    List SourceEntityLink → String → List SourceEntityLink
unfolding sort_by rows_of
get_source_entity_links_for_feed rows guid =
    sort_by entity_link_order (rows_of entity_link_guid guid rows)

unfoldable pub replace_source_entity_links_for_feed :
    List SourceEntityLink → String → List SourceEntityLink → List SourceEntityLink
unfolding without dedupe_source_entity_links
replace_source_entity_links_for_feed rows guid new =
    without entity_link_guid guid rows ++ dedupe_source_entity_links new

abbrev pub release_claim_guid : SourceReleaseClaim → String
release_claim_guid r = r.feed_guid

abbrev pub release_claim_order : SourceReleaseClaim → List Cell
release_claim_order r =
    text r.entity_type ∷ text r.entity_id ∷ text r.claim_type ∷ int r.position ∷ []

abbrev pub release_claim_key : SourceReleaseClaim → List Cell
release_claim_key r =
    text r.feed_guid
    ∷ text r.entity_type
    ∷ text r.entity_id
    ∷ text r.claim_type
    ∷ int r.position
    ∷ []

unfoldable pub dedupe_source_release_claims : List SourceReleaseClaim → List SourceReleaseClaim
unfolding dedupe_by
dedupe_source_release_claims rows = dedupe_by release_claim_key rows

unfoldable pub get_source_release_claims_for_feed :
    List SourceReleaseClaim → String → List SourceReleaseClaim
unfolding sort_by rows_of
get_source_release_claims_for_feed rows guid =
    sort_by release_claim_order (rows_of release_claim_guid guid rows)

unfoldable pub replace_source_release_claims_for_feed :
    List SourceReleaseClaim → String → List SourceReleaseClaim → List SourceReleaseClaim
unfolding without dedupe_source_release_claims
replace_source_release_claims_for_feed rows guid new =
    without release_claim_guid guid rows ++ dedupe_source_release_claims new

abbrev pub item_enclosure_guid : SourceItemEnclosure → String
item_enclosure_guid r = r.feed_guid

abbrev pub item_enclosure_order : SourceItemEnclosure → List Cell
item_enclosure_order r = text r.entity_type ∷ text r.entity_id ∷ int r.position ∷ text r.url ∷ []

abbrev pub item_enclosure_key : SourceItemEnclosure → List Cell
item_enclosure_key r =
    text r.feed_guid ∷ text r.entity_type ∷ text r.entity_id ∷ int r.position ∷ text r.url ∷ []

unfoldable pub dedupe_source_item_enclosures : List SourceItemEnclosure → List SourceItemEnclosure
unfolding dedupe_by
dedupe_source_item_enclosures rows = dedupe_by item_enclosure_key rows

unfoldable pub get_source_item_enclosures_for_feed :
    List SourceItemEnclosure → String → List SourceItemEnclosure
unfolding sort_by rows_of
get_source_item_enclosures_for_feed rows guid =
    sort_by item_enclosure_order (rows_of item_enclosure_guid guid rows)

unfoldable pub replace_source_item_enclosures_for_feed :
    List SourceItemEnclosure → String → List SourceItemEnclosure → List SourceItemEnclosure
unfolding without dedupe_source_item_enclosures
replace_source_item_enclosures_for_feed rows guid new =
    without item_enclosure_guid guid rows ++ dedupe_source_item_enclosures new

abbrev pub item_transcript_guid : SourceItemTranscript → String
item_transcript_guid r = r.feed_guid

abbrev pub item_transcript_order : SourceItemTranscript → List Cell
item_transcript_order r = text r.entity_type ∷ text r.entity_id ∷ int r.position ∷ text r.url ∷ []

abbrev pub item_transcript_key : SourceItemTranscript → List Cell
item_transcript_key r =
    text r.feed_guid ∷ text r.entity_type ∷ text r.entity_id ∷ int r.position ∷ text r.url ∷ []

unfoldable pub dedupe_source_item_transcripts :
    List SourceItemTranscript → List SourceItemTranscript
unfolding dedupe_by
dedupe_source_item_transcripts rows = dedupe_by item_transcript_key rows

unfoldable pub get_source_item_transcripts_for_feed :
    List SourceItemTranscript → String → List SourceItemTranscript
unfolding sort_by rows_of
get_source_item_transcripts_for_feed rows guid =
    sort_by item_transcript_order (rows_of item_transcript_guid guid rows)

unfoldable pub replace_source_item_transcripts_for_feed :
    List SourceItemTranscript → String → List SourceItemTranscript → List SourceItemTranscript
unfolding without dedupe_source_item_transcripts
replace_source_item_transcripts_for_feed rows guid new =
    without item_transcript_guid guid rows ++ dedupe_source_item_transcripts new

abbrev pub platform_claim_guid : SourcePlatformClaim → String
platform_claim_guid r = r.feed_guid

abbrev pub platform_claim_order : SourcePlatformClaim → List Cell
platform_claim_order r =
    text r.platform_key ∷ text r.extraction_path ∷ opt_text r.url ∷ opt_text r.owner_name ∷ []

unfoldable pub get_source_platform_claims_for_feed :
    List SourcePlatformClaim → String → List SourcePlatformClaim
unfolding sort_by rows_of
get_source_platform_claims_for_feed rows guid =
    sort_by platform_claim_order (rows_of platform_claim_guid guid rows)

unfoldable pub replace_source_platform_claims_for_feed :
    List SourcePlatformClaim → String → List SourcePlatformClaim → List SourcePlatformClaim
unfolding without
replace_source_platform_claims_for_feed rows guid new = without platform_claim_guid guid rows ++ new
