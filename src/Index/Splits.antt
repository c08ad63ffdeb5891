-- ===== src/Index/Splits.antt =====
-- The value time splits of a track (src/model.rs, src/db.rs). An f64 is its bit pattern: nothing here
-- computes with it. The recipients of a split are kept in its row.
use stophammer.Common.{
  ℕ, Bool, not, ◌&&◌, Option, none, some, List, ◌++◌, String, str_eq, select, map, if◌then◌else◌,
}
use stophammer.Common.Int.{ℤ}
use stophammer.Common.Text.{is_empty}
use stophammer.Index.Rows.{RouteType}

pub data ValueTimeSplitForm : Type 0 where
  remote : ValueTimeSplitForm
  local : ValueTimeSplitForm

pub record ValueTimeSplitRecipient : Type 0 where
  pub recipient_name : Option String
  pub route_type : RouteType
  pub address : String
  pub custom_key : Option String
  pub custom_value : Option String
  pub split : ℤ
  pub fee : Bool

pub record ValueTimeSplit : Type 0 where
  pub source_feed_guid : String
  pub source_track_guid : String
  pub position : ℤ
  pub form : ValueTimeSplitForm
  pub start_time_secs : ℕ
  pub duration_secs : Option ℕ
  pub remote_feed_guid : Option String
  pub remote_item_guid : Option String
  pub remote_start_time_secs : Option ℕ
  pub remote_percentage : Option ℕ
  pub recipients : List ValueTimeSplitRecipient
  pub created_at : ℤ

-- The column `feed_guid` of a track's row, which may be NULL: WHERE track_guid = ?2 AND (feed_guid = ?1
-- OR feed_guid IS NULL).
abbrev pub is_of_track : String → String → Option String → String → Bool
is_of_track feed_guid track_guid none t = str_eq t track_guid
is_of_track feed_guid track_guid (some f) t = str_eq t track_guid && str_eq f feed_guid

abbrev pub given_or : String → String → String
given_or feed_guid guid = if is_empty guid then feed_guid else guid

abbrev pub with_guids : String → String → ValueTimeSplit → Option String × ValueTimeSplit
with_guids feed_guid track_guid s =
    (some feed_guid, record s { source_feed_guid = feed_guid; source_track_guid = track_guid })

abbrev pub without_splits :
    List (Option String × ValueTimeSplit) → String → String → List (Option String × ValueTimeSplit)
without_splits rows feed_guid track_guid =
    select
      (λ (r : Option String × ValueTimeSplit).
        not (is_of_track feed_guid track_guid r.0 r.1.source_track_guid))
      rows

unfoldable pub replace_value_time_splits_for_feed_track :
    List (Option String × ValueTimeSplit)
    → String
    → String
    → List ValueTimeSplit
    → List (Option String × ValueTimeSplit)
unfolding select
replace_value_time_splits_for_feed_track rows feed_guid track_guid splits =
    without_splits rows feed_guid track_guid
    ++ map (λ s. with_guids (given_or feed_guid s.source_feed_guid) track_guid s) splits
