-- ===== src/Index/Claims.antt =====
-- The rows that are claims of a source about itself (src/model.rs), without their `id`.
use stophammer.Common.{Bool, Option, String}
use stophammer.Common.Int.{ℤ}

pub record SourceContributorClaim : Type 0 where
  pub feed_guid : String
  pub entity_type : String
  pub entity_id : String
  pub position : ℤ
  pub name : String
  pub role : Option String
  pub role_norm : Option String
  pub group_name : Option String
  pub href : Option String
  pub img : Option String
  pub npub : Option String
  pub source : String
  pub extraction_path : String
  pub observed_at : ℤ

pub record SourceEntityIdClaim : Type 0 where
  pub feed_guid : String
  pub entity_type : String
  pub entity_id : String
  pub position : ℤ
  pub scheme : String
  pub value : String
  pub source : String
  pub extraction_path : String
  pub observed_at : ℤ

pub record SourceEntityLink : Type 0 where
  pub feed_guid : String
  pub entity_type : String
  pub entity_id : String
  pub position : ℤ
  pub link_type : String
  pub url : String
  pub source : String
  pub extraction_path : String
  pub observed_at : ℤ
  pub label : Option String

pub record SourceReleaseClaim : Type 0 where
  pub feed_guid : String
  pub entity_type : String
  pub entity_id : String
  pub position : ℤ
  pub claim_type : String
  pub claim_value : String
  pub source : String
  pub extraction_path : String
  pub observed_at : ℤ

pub record SourceItemEnclosure : Type 0 where
  pub feed_guid : String
  pub entity_type : String
  pub entity_id : String
  pub position : ℤ
  pub url : String
  pub mime_type : Option String
  pub bytes : Option ℤ
  pub rel : Option String
  pub title : Option String
  pub is_primary : Bool
  pub source : String
  pub extraction_path : String
  pub observed_at : ℤ

pub record SourceItemTranscript : Type 0 where
  pub feed_guid : String
  pub entity_type : String
  pub entity_id : String
  pub position : ℤ
  pub url : String
  pub mime_type : Option String
  pub language : Option String
  pub rel : Option String
  pub source : String
  pub extraction_path : String
  pub observed_at : ℤ

pub record SourcePlatformClaim : Type 0 where
  pub feed_guid : String
  pub platform_key : String
  pub url : Option String
  pub owner_name : Option String
  pub source : String
  pub extraction_path : String
  pub observed_at : ℤ
