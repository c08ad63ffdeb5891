-- ===== src/Index/Follow/ItemLists.antt =====
-- As ClaimLists, for the enclosures and transcripts of the items and for the platforms.
use stophammer.Common.{◌≡◌, Bool, false, List, String, map, if◌then◌else◌}
use stophammer.Common.Sorting.{sort_by, map-sort_by}
use stophammer.Index.Claims.{SourceItemEnclosure, SourceItemTranscript, SourcePlatformClaim}
use stophammer.Index.ClaimStore.{
  get_source_item_enclosures_for_feed, replace_source_item_enclosures_for_feed, item_enclosure_guid,
  item_enclosure_order, get_source_item_transcripts_for_feed,
  replace_source_item_transcripts_for_feed, item_transcript_guid, item_transcript_order,
  get_source_platform_claims_for_feed, replace_source_platform_claims_for_feed, platform_claim_guid,
  platform_claim_order, dedupe_source_item_enclosures, dedupe_source_item_transcripts,
}
use stophammer.Index.ClaimCompare.{
  item_enclosure_fields, item_transcript_fields, platform_claim_fields,
}
use stophammer.Index.Loads.{sort_by-again}
use stophammer.Index.TableLaws.{IsOf, view-follows}

item_enclosure-ordered :
    (a b : SourceItemEnclosure)
    → item_enclosure_fields a ≡ item_enclosure_fields b
    → item_enclosure_order a ≡ item_enclosure_order b
item_enclosure-ordered a b e = cc

pub item_enclosure-follows :
    (g : String) (p r new : List SourceItemEnclosure) (test : Bool)
    → IsOf item_enclosure_guid g new
    → dedupe_source_item_enclosures new ≡ new
    → (test ≡ false
        → map item_enclosure_fields (get_source_item_enclosures_for_feed p g)
          ≡ map item_enclosure_fields new)
    → ((k : String)
        → map item_enclosure_fields (get_source_item_enclosures_for_feed p k)
          ≡ map item_enclosure_fields (get_source_item_enclosures_for_feed r k))
    → (k : String)
    → map item_enclosure_fields (
        get_source_item_enclosures_for_feed
          (replace_source_item_enclosures_for_feed p g (dedupe_source_item_enclosures new))
          k)
      ≡ map item_enclosure_fields (
          get_source_item_enclosures_for_feed
            (if test then replace_source_item_enclosures_for_feed r g new else r)
            k)
unfolding get_source_item_enclosures_for_feed replace_source_item_enclosures_for_feed
item_enclosure-follows g p r new test own distinct quiet agree k =
    rw (distinct, distinct)
      (view-follows item_enclosure_guid item_enclosure_fields (sort_by item_enclosure_order)
        (map-sort_by item_enclosure_order item_enclosure_fields item_enclosure-ordered)
        (sort_by-again item_enclosure_order item_enclosure_fields) g p r new test own quiet agree k)

item_transcript-ordered :
    (a b : SourceItemTranscript)
    → item_transcript_fields a ≡ item_transcript_fields b
    → item_transcript_order a ≡ item_transcript_order b
item_transcript-ordered a b e = cc

pub item_transcript-follows :
    (g : String) (p r new : List SourceItemTranscript) (test : Bool)
    → IsOf item_transcript_guid g new
    → dedupe_source_item_transcripts new ≡ new
    → (test ≡ false
        → map item_transcript_fields (get_source_item_transcripts_for_feed p g)
          ≡ map item_transcript_fields new)
    → ((k : String)
        → map item_transcript_fields (get_source_item_transcripts_for_feed p k)
          ≡ map item_transcript_fields (get_source_item_transcripts_for_feed r k))
    → (k : String)
    → map item_transcript_fields (
        get_source_item_transcripts_for_feed
          (replace_source_item_transcripts_for_feed p g (dedupe_source_item_transcripts new))
          k)
      ≡ map item_transcript_fields (
          get_source_item_transcripts_for_feed
            (if test then replace_source_item_transcripts_for_feed r g new else r)
            k)
unfolding get_source_item_transcripts_for_feed replace_source_item_transcripts_for_feed
item_transcript-follows g p r new test own distinct quiet agree k =
    rw (distinct, distinct)
      (view-follows item_transcript_guid item_transcript_fields (sort_by item_transcript_order)
        (map-sort_by item_transcript_order item_transcript_fields item_transcript-ordered)
        (sort_by-again item_transcript_order item_transcript_fields) g p r new test own quiet agree
        k)

platform_claim-ordered :
    (a b : SourcePlatformClaim)
    → platform_claim_fields a ≡ platform_claim_fields b
    → platform_claim_order a ≡ platform_claim_order b
platform_claim-ordered a b e = cc

pub platform_claim-follows :
    (g : String) (p r new : List SourcePlatformClaim) (test : Bool)
    → IsOf platform_claim_guid g new
    → (test ≡ false
        → map platform_claim_fields (get_source_platform_claims_for_feed p g)
          ≡ map platform_claim_fields new)
    → ((k : String)
        → map platform_claim_fields (get_source_platform_claims_for_feed p k)
          ≡ map platform_claim_fields (get_source_platform_claims_for_feed r k))
    → (k : String)
    → map platform_claim_fields
        (get_source_platform_claims_for_feed (replace_source_platform_claims_for_feed p g new) k)
      ≡ map platform_claim_fields (
          get_source_platform_claims_for_feed
            (if test then replace_source_platform_claims_for_feed r g new else r)
            k)
unfolding get_source_platform_claims_for_feed replace_source_platform_claims_for_feed
platform_claim-follows g p r new test own quiet agree k =
    view-follows platform_claim_guid platform_claim_fields (sort_by platform_claim_order)
      (map-sort_by platform_claim_order platform_claim_fields platform_claim-ordered)
      (sort_by-again platform_claim_order platform_claim_fields) g p r new test own quiet agree k
