-- ===== src/Index/Follow/SharedClaims.antt =====
-- As SharedRows, for the claims of a source.
use stophammer.Common.{◌≡◌, refl, none, List}
use stophammer.Common.Int.{pos}
use stophammer.Common.Cells.{Cell}
use stophammer.Index.Claims.{
  SourceContributorClaim, SourceEntityIdClaim, SourceEntityLink, SourceReleaseClaim,
  SourceItemEnclosure, SourceItemTranscript, SourcePlatformClaim,
}
use stophammer.Index.ClaimCompare.{
  contributor_claim_fields, entity_id_fields, entity_link_fields, release_claim_fields,
  item_enclosure_fields, item_transcript_fields, platform_claim_fields,
}
use stophammer.Index.Follow.Cellwise.{
  at, as_text, as_opt_text, as_int, as_opt_int, as_flag, opt_text_lem, opt_int_lem, flag_lem,
  IsShared, shared_lem,
}

abbrev pub contributor_claim_shared : SourceContributorClaim → SourceContributorClaim
contributor_claim_shared r = record r { role_norm = none; observed_at = pos 0 }

abbrev contributor_claim_of : List Cell → SourceContributorClaim
contributor_claim_of c = record {
  feed_guid = as_text (at 0 c);
  entity_type = as_text (at 1 c);
  entity_id = as_text (at 2 c);
  position = as_int (at 3 c);
  name = as_text (at 4 c);
  role = as_opt_text (at 5 c);
  role_norm = none;
  group_name = as_opt_text (at 6 c);
  href = as_opt_text (at 7 c);
  img = as_opt_text (at 8 c);
  npub = as_opt_text (at 9 c);
  source = as_text (at 10 c);
  extraction_path = as_text (at 11 c);
  observed_at = pos 0;
}

contributor_claim_of_lem :
    (r : SourceContributorClaim)
    → contributor_claim_of (contributor_claim_fields r) ≡ contributor_claim_shared r
contributor_claim_of_lem r = simp opt_text_lem

pub contributor_claim-IsShared : IsShared contributor_claim_fields contributor_claim_shared
contributor_claim-IsShared =
    shared_lem contributor_claim_fields contributor_claim_shared contributor_claim_of (λ r. refl)
      contributor_claim_of_lem

abbrev pub entity_id_shared : SourceEntityIdClaim → SourceEntityIdClaim
entity_id_shared r = record r { observed_at = pos 0 }

abbrev entity_id_of : List Cell → SourceEntityIdClaim
entity_id_of c = record {
  feed_guid = as_text (at 0 c);
  entity_type = as_text (at 1 c);
  entity_id = as_text (at 2 c);
  position = as_int (at 3 c);
  scheme = as_text (at 4 c);
  value = as_text (at 5 c);
  source = as_text (at 6 c);
  extraction_path = as_text (at 7 c);
  observed_at = pos 0;
}

entity_id_of_lem :
    (r : SourceEntityIdClaim) → entity_id_of (entity_id_fields r) ≡ entity_id_shared r
entity_id_of_lem r = refl

pub entity_id-IsShared : IsShared entity_id_fields entity_id_shared
entity_id-IsShared =
    shared_lem entity_id_fields entity_id_shared entity_id_of (λ r. refl) entity_id_of_lem

abbrev pub entity_link_shared : SourceEntityLink → SourceEntityLink
entity_link_shared r = record r { observed_at = pos 0 }

abbrev entity_link_of : List Cell → SourceEntityLink
entity_link_of c = record {
  feed_guid = as_text (at 0 c);
  entity_type = as_text (at 1 c);
  entity_id = as_text (at 2 c);
  position = as_int (at 3 c);
  link_type = as_text (at 4 c);
  url = as_text (at 5 c);
  source = as_text (at 6 c);
  extraction_path = as_text (at 7 c);
  observed_at = pos 0;
  label = as_opt_text (at 8 c);
}

entity_link_of_lem :
    (r : SourceEntityLink) → entity_link_of (entity_link_fields r) ≡ entity_link_shared r
entity_link_of_lem r = simp opt_text_lem

pub entity_link-IsShared : IsShared entity_link_fields entity_link_shared
entity_link-IsShared =
    shared_lem entity_link_fields entity_link_shared entity_link_of (λ r. refl) entity_link_of_lem

abbrev pub release_claim_shared : SourceReleaseClaim → SourceReleaseClaim
release_claim_shared r = record r { observed_at = pos 0 }

abbrev release_claim_of : List Cell → SourceReleaseClaim
release_claim_of c = record {
  feed_guid = as_text (at 0 c);
  entity_type = as_text (at 1 c);
  entity_id = as_text (at 2 c);
  position = as_int (at 3 c);
  claim_type = as_text (at 4 c);
  claim_value = as_text (at 5 c);
  source = as_text (at 6 c);
  extraction_path = as_text (at 7 c);
  observed_at = pos 0;
}

release_claim_of_lem :
    (r : SourceReleaseClaim) → release_claim_of (release_claim_fields r) ≡ release_claim_shared r
release_claim_of_lem r = refl

pub release_claim-IsShared : IsShared release_claim_fields release_claim_shared
release_claim-IsShared =
    shared_lem release_claim_fields release_claim_shared release_claim_of (λ r. refl)
      release_claim_of_lem

abbrev pub item_enclosure_shared : SourceItemEnclosure → SourceItemEnclosure
item_enclosure_shared r = record r { observed_at = pos 0 }

abbrev item_enclosure_of : List Cell → SourceItemEnclosure
item_enclosure_of c = record {
  feed_guid = as_text (at 0 c);
  entity_type = as_text (at 1 c);
  entity_id = as_text (at 2 c);
  position = as_int (at 3 c);
  url = as_text (at 4 c);
  mime_type = as_opt_text (at 5 c);
  bytes = as_opt_int (at 6 c);
  rel = as_opt_text (at 7 c);
  title = as_opt_text (at 8 c);
  is_primary = as_flag (at 9 c);
  source = as_text (at 10 c);
  extraction_path = as_text (at 11 c);
  observed_at = pos 0;
}

item_enclosure_of_lem :
    (r : SourceItemEnclosure)
    → item_enclosure_of (item_enclosure_fields r) ≡ item_enclosure_shared r
item_enclosure_of_lem r = simp (opt_text_lem, opt_int_lem, flag_lem)

pub item_enclosure-IsShared : IsShared item_enclosure_fields item_enclosure_shared
item_enclosure-IsShared =
    shared_lem item_enclosure_fields item_enclosure_shared item_enclosure_of (λ r. refl)
      item_enclosure_of_lem

abbrev pub item_transcript_shared : SourceItemTranscript → SourceItemTranscript
item_transcript_shared r = record r { observed_at = pos 0 }

abbrev item_transcript_of : List Cell → SourceItemTranscript
item_transcript_of c = record {
  feed_guid = as_text (at 0 c);
  entity_type = as_text (at 1 c);
  entity_id = as_text (at 2 c);
  position = as_int (at 3 c);
  url = as_text (at 4 c);
  mime_type = as_opt_text (at 5 c);
  language = as_opt_text (at 6 c);
  rel = as_opt_text (at 7 c);
  source = as_text (at 8 c);
  extraction_path = as_text (at 9 c);
  observed_at = pos 0;
}

item_transcript_of_lem :
    (r : SourceItemTranscript)
    → item_transcript_of (item_transcript_fields r) ≡ item_transcript_shared r
item_transcript_of_lem r = simp opt_text_lem

pub item_transcript-IsShared : IsShared item_transcript_fields item_transcript_shared
item_transcript-IsShared =
    shared_lem item_transcript_fields item_transcript_shared item_transcript_of (λ r. refl)
      item_transcript_of_lem

abbrev pub platform_claim_shared : SourcePlatformClaim → SourcePlatformClaim
platform_claim_shared r = record r { observed_at = pos 0 }

abbrev platform_claim_of : List Cell → SourcePlatformClaim
platform_claim_of c = record {
  feed_guid = as_text (at 0 c);
  platform_key = as_text (at 1 c);
  url = as_opt_text (at 2 c);
  owner_name = as_opt_text (at 3 c);
  source = as_text (at 4 c);
  extraction_path = as_text (at 5 c);
  observed_at = pos 0;
}

platform_claim_of_lem :
    (r : SourcePlatformClaim)
    → platform_claim_of (platform_claim_fields r) ≡ platform_claim_shared r
platform_claim_of_lem r = simp opt_text_lem

pub platform_claim-IsShared : IsShared platform_claim_fields platform_claim_shared
platform_claim-IsShared =
    shared_lem platform_claim_fields platform_claim_shared platform_claim_of (λ r. refl)
      platform_claim_of_lem
