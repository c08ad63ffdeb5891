-- ===== src/GuidChange/Record.antt =====
-- `record_guid_change_pending_for_ingest` and `record_guid_change_return_for_ingest` (src/api.rs), with
-- the events that they sign, and the arms of src/apply.rs for these events.
use stophammer.Common.{
  Bool, true, false, not, ◌&&◌, ◌||◌, Option, none, some, List, [], ◌∷◌, String, str_eq, opt_eq,
  is_some, if◌then◌else◌,
}
use stophammer.Common.Int.{ℤ}
use stophammer.Common.Text.{trim, is_empty}
use stophammer.GuidChange.Table.{
  GuidChangeRow, get_guid_change_for_old_guid, get_guid_change, upsert_guid_change,
  touch_guid_change_last_seen, delete_guid_change, set_guid_change_decision,
}

pub record GuidChangeObserved : Type 0 where
  pub source_url : String
  pub old_guid : String
  pub new_guid : String
  pub first_seen : ℤ

pub data GuidChangePendingOutcome : Type 0 where
  rejected : GuidChangePendingOutcome
  pending : List GuidChangeObserved → GuidChangePendingOutcome

abbrev pub is_rejected : String → Option GuidChangeRow → Bool
is_rejected new_guid none = false
is_rejected new_guid (some row) =
    str_eq row.new_guid new_guid && opt_eq row.decision (some "reject")

abbrev pub is_new_or_changed : String → Option GuidChangeRow → Bool
is_new_or_changed new_guid none = true
is_new_or_changed new_guid (some row) = not (str_eq row.new_guid new_guid)

abbrev pub seen_first : ℤ → Option GuidChangeRow → ℤ
seen_first now none = now
seen_first now (some row) = row.first_seen

module _ (source_url old_guid new_guid : String) (now : ℤ) where
  abbrev pub observed : ℤ → GuidChangeObserved
  observed first_seen = record {
    source_url = source_url;
    old_guid = old_guid;
    new_guid = new_guid;
    first_seen = first_seen;
  }

  abbrev pub by_existing :
      List (String × GuidChangeRow)
      → Option GuidChangeRow
      → List (String × GuidChangeRow) × GuidChangePendingOutcome
  by_existing rows existing =
      let changed = is_new_or_changed new_guid existing in
      let first_seen = if changed then now else seen_first now existing in
      if is_rejected new_guid existing then (rows, rejected) else (
        touch_guid_change_last_seen
            (upsert_guid_change rows source_url old_guid new_guid first_seen) source_url now,
        pending (if changed then observed first_seen ∷ [] else []),
      )

  unfoldable pub record_guid_change_pending_for_ingest :
      List (String × GuidChangeRow) → List (String × GuidChangeRow) × GuidChangePendingOutcome
  unfolding get_guid_change upsert_guid_change touch_guid_change_last_seen
  record_guid_change_pending_for_ingest rows = by_existing rows (get_guid_change rows source_url)

-- The delete marker has the same GUID twice.
unfoldable pub record_guid_change_return_for_ingest :
    String
    → String
    → ℤ
    → List (String × GuidChangeRow)
    → List (String × GuidChangeRow) × List GuidChangeObserved
unfolding get_guid_change delete_guid_change
record_guid_change_return_for_ingest source_url guid now rows =
    if is_some (get_guid_change rows source_url)
    then (delete_guid_change rows source_url, observed source_url guid guid now now ∷ [])
    else (rows, [])

pub record GuidChangeDecided : Type 0 where
  pub source_url : String
  pub old_guid : String
  pub new_guid : String
  pub decision : String
  pub reason : String
  pub decided_at : ℤ

pub data GuidChangeDecisionOutcome : Type 0 where
  bad_request : GuidChangeDecisionOutcome
  not_found : GuidChangeDecisionOutcome
  done : GuidChangeDecided → GuidChangeDecisionOutcome

abbrev pub decide_row :
    List (String × GuidChangeRow)
    → String
    → String
    → ℤ
    → Option (String × GuidChangeRow)
    → List (String × GuidChangeRow) × GuidChangeDecisionOutcome
decide_row rows decision reason now none = (rows, not_found)
decide_row rows decision reason now (some (source_url, row)) = (
  set_guid_change_decision rows source_url decision reason now,
  done (record {
    source_url = source_url;
    old_guid = row.old_guid;
    new_guid = row.new_guid;
    decision = decision;
    reason = reason;
    decided_at = now;
  }),
)

-- After the check of the admin token.
unfoldable pub handle_guid_change_decision :
    List (String × GuidChangeRow)
    → String
    → String
    → String
    → ℤ
    → List (String × GuidChangeRow) × GuidChangeDecisionOutcome
unfolding trim get_guid_change_for_old_guid set_guid_change_decision
handle_guid_change_decision rows guid decision reason now =
    if is_empty (trim reason) || (not (str_eq decision "approve") && not (str_eq decision "reject"))
    then (rows, bad_request)
    else decide_row rows decision (trim reason) now (get_guid_change_for_old_guid rows guid)

-- The arm `FeedGuidChangeObserved` of `apply_single_event_inner`.
unfoldable pub apply_observed :
    GuidChangeObserved → List (String × GuidChangeRow) → List (String × GuidChangeRow)
unfolding delete_guid_change upsert_guid_change
apply_observed p rows =
    if str_eq p.new_guid p.old_guid
    then delete_guid_change rows p.source_url
    else upsert_guid_change rows p.source_url p.old_guid p.new_guid p.first_seen

-- The arm `FeedGuidChangeDecided`.
unfoldable pub apply_decided :
    GuidChangeDecided → List (String × GuidChangeRow) → List (String × GuidChangeRow)
unfolding set_guid_change_decision
apply_decided p rows = set_guid_change_decision rows p.source_url p.decision p.reason p.decided_at
