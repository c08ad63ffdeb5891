-- ===== src/Index/Follow/ClaimLists.antt =====
-- As FeedLists, for the claims of a source. The rows of an event have no key twice, as the handler of
-- src/api.rs dedupes them first.
use stophammer.Common.{◌≡◌, Bool, false, List, String, map, if◌then◌else◌}
use stophammer.Common.Sorting.{sort_by, map-sort_by}
use stophammer.Index.Claims.{
  SourceContributorClaim, SourceEntityIdClaim, SourceEntityLink, SourceReleaseClaim,
}
use stophammer.Index.ClaimStore.{
  get_source_contributor_claims_for_feed, replace_source_contributor_claims_for_feed,
  contributor_claim_guid, contributor_claim_order, get_source_entity_ids_for_feed,
  replace_source_entity_ids_for_feed, entity_id_guid, entity_id_order,
  get_source_entity_links_for_feed, replace_source_entity_links_for_feed, entity_link_guid,
  entity_link_order, get_source_release_claims_for_feed, replace_source_release_claims_for_feed,
  release_claim_guid, release_claim_order, dedupe_source_contributor_claims,
  dedupe_source_entity_ids, dedupe_source_entity_links, dedupe_source_release_claims,
}
use stophammer.Index.ClaimCompare.{
  contributor_claim_fields, entity_id_fields, entity_link_fields, release_claim_fields,
}
use stophammer.Index.Loads.{sort_by-again}
use stophammer.Index.TableLaws.{IsOf, view-follows}

contributor_claim-ordered :
    (a b : SourceContributorClaim)
    → contributor_claim_fields a ≡ contributor_claim_fields b
    → contributor_claim_order a ≡ contributor_claim_order b
contributor_claim-ordered a b e = cc

pub contributor_claim-follows :
    (g : String) (p r new : List SourceContributorClaim) (test : Bool)
    → IsOf contributor_claim_guid g new
    → dedupe_source_contributor_claims new ≡ new
    → (test ≡ false
        → map contributor_claim_fields (get_source_contributor_claims_for_feed p g)
          ≡ map contributor_claim_fields new)
    → ((k : String)
        → map contributor_claim_fields (get_source_contributor_claims_for_feed p k)
          ≡ map contributor_claim_fields (get_source_contributor_claims_for_feed r k))
    → (k : String)
    → map contributor_claim_fields (
        get_source_contributor_claims_for_feed
          (replace_source_contributor_claims_for_feed p g (dedupe_source_contributor_claims new))
          k)
      ≡ map contributor_claim_fields (
          get_source_contributor_claims_for_feed
            (if test then replace_source_contributor_claims_for_feed r g new else r)
            k)
unfolding get_source_contributor_claims_for_feed replace_source_contributor_claims_for_feed
contributor_claim-follows g p r new test own distinct quiet agree k =
    rw (distinct, distinct)
      (view-follows contributor_claim_guid contributor_claim_fields
        (sort_by contributor_claim_order)
        (map-sort_by contributor_claim_order contributor_claim_fields contributor_claim-ordered)
        (sort_by-again contributor_claim_order contributor_claim_fields) g p r new test own quiet
        agree k)

entity_id-ordered :
    (a b : SourceEntityIdClaim)
    → entity_id_fields a ≡ entity_id_fields b
    → entity_id_order a ≡ entity_id_order b
entity_id-ordered a b e = cc

pub entity_id-follows :
    (g : String) (p r new : List SourceEntityIdClaim) (test : Bool)
    → IsOf entity_id_guid g new
    → dedupe_source_entity_ids new ≡ new
    → (test ≡ false
        → map entity_id_fields (get_source_entity_ids_for_feed p g) ≡ map entity_id_fields new)
    → ((k : String)
        → map entity_id_fields (get_source_entity_ids_for_feed p k)
          ≡ map entity_id_fields (get_source_entity_ids_for_feed r k))
    → (k : String)
    → map entity_id_fields (
        get_source_entity_ids_for_feed
          (replace_source_entity_ids_for_feed p g (dedupe_source_entity_ids new))
          k)
      ≡ map entity_id_fields (
          get_source_entity_ids_for_feed
            (if test then replace_source_entity_ids_for_feed r g new else r)
            k)
unfolding get_source_entity_ids_for_feed replace_source_entity_ids_for_feed
entity_id-follows g p r new test own distinct quiet agree k =
    rw (distinct, distinct)
      (view-follows entity_id_guid entity_id_fields (sort_by entity_id_order)
        (map-sort_by entity_id_order entity_id_fields entity_id-ordered)
        (sort_by-again entity_id_order entity_id_fields) g p r new test own quiet agree k)

entity_link-ordered :
    (a b : SourceEntityLink)
    → entity_link_fields a ≡ entity_link_fields b
    → entity_link_order a ≡ entity_link_order b
entity_link-ordered a b e = cc

pub entity_link-follows :
    (g : String) (p r new : List SourceEntityLink) (test : Bool)
    → IsOf entity_link_guid g new
    → dedupe_source_entity_links new ≡ new
    → (test ≡ false
        → map entity_link_fields (get_source_entity_links_for_feed p g)
          ≡ map entity_link_fields new)
    → ((k : String)
        → map entity_link_fields (get_source_entity_links_for_feed p k)
          ≡ map entity_link_fields (get_source_entity_links_for_feed r k))
    → (k : String)
    → map entity_link_fields (
        get_source_entity_links_for_feed
          (replace_source_entity_links_for_feed p g (dedupe_source_entity_links new))
          k)
      ≡ map entity_link_fields (
          get_source_entity_links_for_feed
            (if test then replace_source_entity_links_for_feed r g new else r)
            k)
unfolding get_source_entity_links_for_feed replace_source_entity_links_for_feed
entity_link-follows g p r new test own distinct quiet agree k =
    rw (distinct, distinct)
      (view-follows entity_link_guid entity_link_fields (sort_by entity_link_order)
        (map-sort_by entity_link_order entity_link_fields entity_link-ordered)
        (sort_by-again entity_link_order entity_link_fields) g p r new test own quiet agree k)

release_claim-ordered :
    (a b : SourceReleaseClaim)
    → release_claim_fields a ≡ release_claim_fields b
    → release_claim_order a ≡ release_claim_order b
release_claim-ordered a b e = cc

pub release_claim-follows :
    (g : String) (p r new : List SourceReleaseClaim) (test : Bool)
    → IsOf release_claim_guid g new
    → dedupe_source_release_claims new ≡ new
    → (test ≡ false
        → map release_claim_fields (get_source_release_claims_for_feed p g)
          ≡ map release_claim_fields new)
    → ((k : String)
        → map release_claim_fields (get_source_release_claims_for_feed p k)
          ≡ map release_claim_fields (get_source_release_claims_for_feed r k))
    → (k : String)
    → map release_claim_fields (
        get_source_release_claims_for_feed
          (replace_source_release_claims_for_feed p g (dedupe_source_release_claims new))
          k)
      ≡ map release_claim_fields (
          get_source_release_claims_for_feed
            (if test then replace_source_release_claims_for_feed r g new else r)
            k)
unfolding get_source_release_claims_for_feed replace_source_release_claims_for_feed
release_claim-follows g p r new test own distinct quiet agree k =
    rw (distinct, distinct)
      (view-follows release_claim_guid release_claim_fields (sort_by release_claim_order)
        (map-sort_by release_claim_order release_claim_fields release_claim-ordered)
        (sort_by-again release_claim_order release_claim_fields) g p r new test own quiet agree k)
