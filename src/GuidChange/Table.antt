-- ===== src/GuidChange/Table.antt =====
-- The tables `feed_guid_changes`, by source URL, and `feed_guid_supersessions`, by old GUID
-- (src/db.rs). SQL statements are taken to succeed.
use stophammer.Common.{Option, none, some, List, [], ◌∷◌, String, str_eq, is_some, if◌then◌else◌}
use stophammer.Common.Int.{ℤ, ltb_ℤ}
use stophammer.Common.Keyed.{find, put, remove, update}

pub record GuidChangeRow : Type 0 where
  pub old_guid : String
  pub new_guid : String
  pub first_seen : ℤ
  pub last_seen : Option ℤ
  pub decision : Option String
  pub decision_reason : Option String
  pub decided_at : Option ℤ

pub record GuidSupersessionRow : Type 0 where
  pub new_guid : String
  pub source_url : String
  pub superseded_at : ℤ

unfoldable pub get_guid_change : List (String × GuidChangeRow) → String → Option GuidChangeRow
get_guid_change rows source_url = find source_url rows

-- The newest by `first_seen`, the first of them among equals, with its source URL.
abbrev newer :
    String → GuidChangeRow → Option (String × GuidChangeRow) → Option (String × GuidChangeRow)
newer u row none = some (u, row)
newer u row (some (v, later)) =
    if ltb_ℤ row.first_seen later.first_seen then some (v, later) else some (u, row)

unfoldable pub get_guid_change_for_old_guid :
    List (String × GuidChangeRow) → String → Option (String × GuidChangeRow)
get_guid_change_for_old_guid [] old_guid = none
get_guid_change_for_old_guid ((u, row) ∷ rest) old_guid =
    let later = get_guid_change_for_old_guid rest old_guid in
    if str_eq row.old_guid old_guid then newer u row later else later

-- The row that INSERT writes, and the row after ON CONFLICT .. DO UPDATE. The CASE tests read the old
-- `new_guid`.
abbrev pub conflict : Option GuidChangeRow → String → String → ℤ → GuidChangeRow
conflict none old_guid new_guid first_seen = record {
  old_guid = old_guid;
  new_guid = new_guid;
  first_seen = first_seen;
  last_seen = none;
  decision = none;
  decision_reason = none;
  decided_at = none;
}
conflict (some row) old_guid new_guid first_seen =
    let same = str_eq row.new_guid new_guid in
    record {
      old_guid = old_guid;
      new_guid = new_guid;
      first_seen = if same then row.first_seen else first_seen;
      last_seen = row.last_seen;
      decision = if same then row.decision else none;
      decision_reason = if same then row.decision_reason else none;
      decided_at = if same then row.decided_at else none;
    }

unfoldable pub upsert_guid_change :
    List (String × GuidChangeRow) → String → String → String → ℤ → List (String × GuidChangeRow)
upsert_guid_change rows source_url old_guid new_guid first_seen =
    put source_url (conflict (find source_url rows) old_guid new_guid first_seen) rows

abbrev pub seen : ℤ → GuidChangeRow → GuidChangeRow
seen now row = record {
  old_guid = row.old_guid;
  new_guid = row.new_guid;
  first_seen = row.first_seen;
  last_seen = some now;
  decision = row.decision;
  decision_reason = row.decision_reason;
  decided_at = row.decided_at;
}

unfoldable pub touch_guid_change_last_seen :
    List (String × GuidChangeRow) → String → ℤ → List (String × GuidChangeRow)
touch_guid_change_last_seen rows source_url now = update (seen now) source_url rows

unfoldable pub delete_guid_change :
    List (String × GuidChangeRow) → String → List (String × GuidChangeRow)
delete_guid_change rows source_url = remove source_url rows

abbrev pub decided : String → String → ℤ → GuidChangeRow → GuidChangeRow
decided decision reason decided_at row = record {
  old_guid = row.old_guid;
  new_guid = row.new_guid;
  first_seen = row.first_seen;
  last_seen = row.last_seen;
  decision = some decision;
  decision_reason = some reason;
  decided_at = some decided_at;
}

unfoldable pub set_guid_change_decision :
    List (String × GuidChangeRow) → String → String → String → ℤ → List (String × GuidChangeRow)
set_guid_change_decision rows source_url decision reason decided_at =
    update (decided decision reason decided_at) source_url rows

-- INSERT OR IGNORE, with the old GUID as the key.
unfoldable pub insert_guid_supersession :
    List (String × GuidSupersessionRow)
    → String
    → String
    → String
    → ℤ
    → List (String × GuidSupersessionRow)
insert_guid_supersession rows old_guid new_guid source_url superseded_at =
    if is_some (find old_guid rows)
    then rows
    else put old_guid
        (record { new_guid = new_guid; source_url = source_url; superseded_at = superseded_at })
        rows

unfoldable pub get_guid_supersession :
    List (String × GuidSupersessionRow) → String → Option GuidSupersessionRow
get_guid_supersession rows old_guid = find old_guid rows
