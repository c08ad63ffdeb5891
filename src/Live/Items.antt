-- ===== src/Live/Items.antt =====
-- The ingest rules of src/live.rs: the ban of a live item and `select_live_items`.
-- An item has the fields that the rules read. A warning is the constructor that names its rule. A
-- `HashSet` of GUIDs is a list.
use stophammer.Common.{
  ℕ, ◌+◌, ◌*◌, Bool, true, false, not, ◌||◌, Option, none, some, List, [], ◌∷◌, ◌++◌, String,
  str_eq, ltb, contains, select, if◌then◌else◌,
}
use stophammer.Common.Int.{ℤ, pos, sub_i64, ltb_ℤ, leb_ℤ}
use stophammer.Common.Text.{codes, lower_codes, codes_eq, eq_ignore_ascii_case}

pub record LiveItem : Type 0 where
  pub live_item_guid : String
  pub status : String
  pub start_at : Option ℤ
  pub end_at : Option ℤ
  pub live_value_uri : Option String

pub data Warning : Type 0 where
  unknown_status : String → String → Warning
  duplicate banned too_many_active too_many_ended : String → Warning

abbrev pub max_active_live_rows : ℕ
max_active_live_rows = 10

abbrev pub max_ended_live_rows : ℕ
max_ended_live_rows = 10

abbrev pub max_unrelayed_live_secs : ℕ
max_unrelayed_live_secs = 6 * 3600

abbrev pub is_filled : Option String → Bool
is_filled none = false
is_filled (some uri) = not (str_eq uri "")

unfoldable pub has_relay_link : LiveItem → Bool
has_relay_link item = is_filled item.live_value_uri

abbrev pub window_too_long : Option ℤ → Option ℤ → Bool
window_too_long (some start_at) (some end_at) =
    ltb_ℤ (pos max_unrelayed_live_secs) (sub_i64 end_at start_at)
window_too_long _ none = true
window_too_long none (some end_at) = true

unfoldable pub is_banned_live_item : LiveItem → Bool
unfolding has_relay_link
is_banned_live_item item =
    if not (eq_ignore_ascii_case item.status "live") || has_relay_link item
    then false
    else window_too_long item.start_at item.end_at

-- `matches!(item.status.to_ascii_lowercase(), "pending" | "live" | "ended")`.
unfoldable pub is_known_status : LiveItem → Bool
is_known_status item =
    let status = lower_codes item.status in
    codes_eq status (codes "pending")
    || (codes_eq status (codes "live") || codes_eq status (codes "ended"))

unfoldable pub is_ended : LiveItem → Bool
is_ended item = eq_ignore_ascii_case item.status "ended"

-- Step 1.
unfoldable pub known_status : List LiveItem → List LiveItem × List Warning
known_status [] = ([], [])
known_status (item ∷ rest) =
    let (kept, warnings) = known_status rest in
    if is_known_status item
    then (item ∷ kept, warnings)
    else (kept, unknown_status item.live_item_guid item.status ∷ warnings)

-- Step 2, with the GUIDs seen so far.
unfoldable pub deduped : List String → List LiveItem → List LiveItem × List Warning
deduped seen [] = ([], [])
deduped seen (item ∷ rest) =
    let repeated = deduped seen rest in
    let first = deduped (item.live_item_guid ∷ seen) rest in
    if contains item.live_item_guid seen
    then (repeated.0, duplicate item.live_item_guid ∷ repeated.1)
    else (item ∷ first.0, first.1)

-- Step 3.
unfoldable pub survivors : List LiveItem → List LiveItem × List Warning
survivors [] = ([], [])
survivors (item ∷ rest) =
    let (kept, warnings) = survivors rest in
    if is_banned_live_item item
    then (kept, banned item.live_item_guid ∷ warnings)
    else (item ∷ kept, warnings)

-- Step 4, with the number of active rows kept so far: the GUIDs to keep.
unfoldable pub active_guids : ℕ → List LiveItem → List String × List Warning
active_guids active_kept [] = ([], [])
active_guids active_kept (item ∷ rest) =
    let same = active_guids active_kept rest in
    let more = active_guids (active_kept + 1) rest in
    if is_ended item
    then same
    else if ltb active_kept max_active_live_rows
    then (item.live_item_guid ∷ more.0, more.1)
    else (same.0, too_many_active item.live_item_guid ∷ same.1)

-- The order of step 5: true unless `b` sorts before `a`.
abbrev pub not_older : Option ℤ → Option ℤ → Bool
not_older (some a_start) (some b_start) = leb_ℤ b_start a_start
not_older (some a_start) none = true
not_older none (some b_start) = false
not_older none none = true

unfoldable pub insert_newest : LiveItem → List LiveItem → List LiveItem
insert_newest a [] = a ∷ []
insert_newest a (b ∷ rest) =
    if not_older a.start_at b.start_at then a ∷ b ∷ rest else b ∷ insert_newest a rest

-- `sort_by`, which is stable.
unfoldable pub newest_first : List LiveItem → List LiveItem
unfolding insert_newest
newest_first [] = []
newest_first (a ∷ rest) = insert_newest a (newest_first rest)

-- The loop of step 5, with the index of the first item.
unfoldable pub ended_guids : ℕ → List LiveItem → List String × List Warning
ended_guids index [] = ([], [])
ended_guids index (item ∷ rest) =
    let (kept, warnings) = ended_guids (index + 1) rest in
    if ltb index max_ended_live_rows
    then (item.live_item_guid ∷ kept, warnings)
    else (kept, too_many_ended item.live_item_guid ∷ warnings)

unfoldable pub select_live_items : List LiveItem → List LiveItem × List Warning
unfolding known_status deduped survivors active_guids newest_first ended_guids
select_live_items items =
    let (known, w1) = known_status items in
    let (distinct, w2) = deduped [] known in
    let (left, w3) = survivors distinct in
    let (active, w4) = active_guids 0 left in
    let (ended, w5) = ended_guids 0 (newest_first (select is_ended left)) in
    let kept_guids = active ++ ended in
    (
      select (λ item. contains item.live_item_guid kept_guids) left,
      w1 ++ (w2 ++ (w3 ++ (w4 ++ w5))),
    )
