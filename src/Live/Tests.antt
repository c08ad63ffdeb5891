-- ===== src/Live/Tests.antt =====
-- Runs of the live rules of src/live.rs on concrete items.
use stophammer.Common.{
  ◌≡◌, ◌↔◌, refl, true, false, none, some, List, [], ◌∷◌, String, contains, select, arith,
}
use stophammer.Common.Int.{ℤ, pos, negsuc, ◌+ℤ◌, ◌-ℤ◌, sub_i64, add_i64}
use stophammer.Common.Text.{eq_ignore_ascii_case}
use stophammer.Live.Items.{
  LiveItem, unknown_status, duplicate, is_banned_live_item, has_relay_link, is_known_status,
  is_ended, select_live_items,
}
use stophammer.Live.Window.{IsRelayed, IsLong, is_banned_live_item_iff, is_banned_live_item-wraps}
use stophammer.Live.Selection.{IsSelection, select_live_items-IsSelection}
use stophammer.Live.Views.{LiveEvent, in_now_view, in_upcoming_view}

runs : Unit {0}
unfolding select_live_items is_banned_live_item is_known_status is_ended has_relay_link
    eq_ignore_ascii_case in_now_view in_upcoming_view contains select ◌-ℤ◌ ◌+ℤ◌ sub_i64 add_i64
runs = tt

abbrev live_show : ℤ → ℤ → LiveItem
live_show start_at end_at = record {
  live_item_guid = "show";
  status = "LIVE";
  start_at = some start_at;
  end_at = some end_at;
  live_value_uri = none;
}

abbrev other : String → String → LiveItem
other guid status = record {
  live_item_guid = guid;
  status = status;
  start_at = some (pos 100);
  end_at = none;
  live_value_uri = some "wss://relay";
}

abbrev items : List LiveItem
items =
    other "a" "pending" ∷ other "b" "paused" ∷ other "a" "ended" ∷ live_show (pos 0) (pos 100) ∷ []

select_test : select_live_items items ≡ (
  other "a" "pending" ∷ live_show (pos 0) (pos 100) ∷ [],
  unknown_status "b" "paused" ∷ duplicate "a" ∷ [],
)
unfolding runs
select_test = refl

is_banned_live_item_iff_example : (is_banned_live_item (live_show (pos 0) (pos 30000)) ≡ true) ↔ (
    (eq_ignore_ascii_case "live" "live" ≡ true)
    × (¬ (IsRelayed none) × IsLong (some (pos 0)) (some (pos 30000))))
unfolding runs
is_banned_live_item_iff_example =
    is_banned_live_item_iff (live_show (pos 0) (pos 30000)) (omega arith, omega arith)

-- The smallest and the largest i64 as the two times.
is_banned_live_item-wraps_example :
    is_banned_live_item (live_show (negsuc 9223372036854775807) (pos 9223372036854775807)) ≡ false
unfolding runs
is_banned_live_item-wraps_example =
    is_banned_live_item-wraps (live_show (negsuc 9223372036854775807) (pos 9223372036854775807))
      (negsuc 9223372036854775807) (pos 9223372036854775807) refl refl refl refl
      (omega arith, omega arith) (omega arith, omega arith) (omega arith)

select_live_items-IsSelection_example : IsSelection items (select_live_items items).0
select_live_items-IsSelection_example = select_live_items-IsSelection items

abbrev row : LiveEvent
row = record {
  live_item_guid = "show";
  status = "live";
  scheduled_start = some (pos 0);
  scheduled_end = some (pos 1000);
}
