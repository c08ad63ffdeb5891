-- ===== src/Index/ClaimCompare.antt =====
-- The comparisons of the claims of a source (src/db.rs).
use stophammer.Common.{Bool, List, [], ◌∷◌}
use stophammer.Common.Cells.{Cell, int, text, opt_text, opt_int, flag, cells_eq}
use stophammer.Index.Claims.{
  SourceContributorClaim, SourceEntityIdClaim, SourceEntityLink, SourceReleaseClaim,
  SourceItemEnclosure, SourceItemTranscript, SourcePlatformClaim,
}
use stophammer.Index.Compare.{any_pair, rows_changed}

abbrev pub contributor_claim_fields : SourceContributorClaim → List Cell
contributor_claim_fields r =
    text r.feed_guid
    ∷ text r.entity_type
    ∷ text r.entity_id
    ∷ int r.position
    ∷ text r.name
    ∷ opt_text r.role
    ∷ opt_text r.group_name
    ∷ opt_text r.href
    ∷ opt_text r.img
    ∷ opt_text r.npub
    ∷ text r.source
    ∷ text r.extraction_path
    ∷ []

abbrev pub entity_id_fields : SourceEntityIdClaim → List Cell
entity_id_fields r =
    text r.feed_guid
    ∷ text r.entity_type
    ∷ text r.entity_id
    ∷ int r.position
    ∷ text r.scheme
    ∷ text r.value
    ∷ text r.source
    ∷ text r.extraction_path
    ∷ []

abbrev pub entity_link_fields : SourceEntityLink → List Cell
entity_link_fields r =
    text r.feed_guid
    ∷ text r.entity_type
    ∷ text r.entity_id
    ∷ int r.position
    ∷ text r.link_type
    ∷ text r.url
    ∷ text r.source
    ∷ text r.extraction_path
    ∷ opt_text r.label
    ∷ []

abbrev pub release_claim_fields : SourceReleaseClaim → List Cell
release_claim_fields r =
    text r.feed_guid
    ∷ text r.entity_type
    ∷ text r.entity_id
    ∷ int r.position
    ∷ text r.claim_type
    ∷ text r.claim_value
    ∷ text r.source
    ∷ text r.extraction_path
    ∷ []

abbrev pub item_enclosure_fields : SourceItemEnclosure → List Cell
item_enclosure_fields r =
    text r.feed_guid
    ∷ text r.entity_type
    ∷ text r.entity_id
    ∷ int r.position
    ∷ text r.url
    ∷ opt_text r.mime_type
    ∷ opt_int r.bytes
    ∷ opt_text r.rel
    ∷ opt_text r.title
    ∷ flag r.is_primary
    ∷ text r.source
    ∷ text r.extraction_path
    ∷ []

abbrev pub item_transcript_fields : SourceItemTranscript → List Cell
item_transcript_fields r =
    text r.feed_guid
    ∷ text r.entity_type
    ∷ text r.entity_id
    ∷ int r.position
    ∷ text r.url
    ∷ opt_text r.mime_type
    ∷ opt_text r.language
    ∷ opt_text r.rel
    ∷ text r.source
    ∷ text r.extraction_path
    ∷ []

abbrev pub platform_claim_fields : SourcePlatformClaim → List Cell
platform_claim_fields r =
    text r.feed_guid
    ∷ text r.platform_key
    ∷ opt_text r.url
    ∷ opt_text r.owner_name
    ∷ text r.source
    ∷ text r.extraction_path
    ∷ []

unfoldable pub source_contributor_claims_changed :
    List SourceContributorClaim → List SourceContributorClaim → Bool
unfolding cells_eq any_pair
source_contributor_claims_changed existing new = rows_changed contributor_claim_fields existing new

unfoldable pub source_entity_ids_changed :
    List SourceEntityIdClaim → List SourceEntityIdClaim → Bool
unfolding cells_eq any_pair
source_entity_ids_changed existing new = rows_changed entity_id_fields existing new

unfoldable pub source_entity_links_changed : List SourceEntityLink → List SourceEntityLink → Bool
unfolding cells_eq any_pair
source_entity_links_changed existing new = rows_changed entity_link_fields existing new

unfoldable pub source_release_claims_changed :
    List SourceReleaseClaim → List SourceReleaseClaim → Bool
unfolding cells_eq any_pair
source_release_claims_changed existing new = rows_changed release_claim_fields existing new

unfoldable pub source_item_enclosures_changed :
    List SourceItemEnclosure → List SourceItemEnclosure → Bool
unfolding cells_eq any_pair
source_item_enclosures_changed existing new = rows_changed item_enclosure_fields existing new

unfoldable pub source_item_transcripts_changed :
    List SourceItemTranscript → List SourceItemTranscript → Bool
unfolding cells_eq any_pair
source_item_transcripts_changed existing new = rows_changed item_transcript_fields existing new

unfoldable pub source_platform_claims_changed :
    List SourcePlatformClaim → List SourcePlatformClaim → Bool
unfolding cells_eq any_pair
source_platform_claims_changed existing new = rows_changed platform_claim_fields existing new
