-- ===== src/Moves/Tests.antt =====
-- Runs of the moves of src/db.rs and src/api.rs on a concrete record.
use stophammer.Common.{
  ◌≡◌, ◌↔◌, refl, true, false, not, ◌&&◌, ◌||◌, none, some, [], ◌∷◌, String, str_eq, arith,
  contains, opt_eq, if◌then◌else◌,
}
use stophammer.Common.Int.{pos, ◌+ℤ◌, ◌-ℤ◌, ◌<ℤ◌, saturating_add, saturating_sub, sub_i64}
use stophammer.Common.Keyed.{find}
use stophammer.Moves.State.{
  MoveState, MoveDb, FeedMoveWrite, get_move_state, set_return, set_tag, write_feed_move,
}
use stophammer.Moves.Decide.{move_target, move, refused, target, new_feed_url, is_waiting}
use stophammer.Moves.Cooldown.{wait_after, is_waiting_iff}
use stophammer.Moves.Justified.{IsJustified, move_target-IsJustified}
use stophammer.Moves.History.{is_left, write_feed_move-history}

abbrev old_url : String
old_url = "https://a.example/feed"

abbrev new_url : String
new_url = "https://b.example/feed"

abbrev returned : MoveState
returned = record { arrival_tag = none; return_count = pos 2; last_return_at = some (pos 1000) }

abbrev db : MoveDb
db = record {
  feeds =
      record {
        feed_guid = "g";
        feed_url = new_url;
        declared_new_feed_url = some old_url;
        declared_self_url = none;
      }
      ∷ [];
  left_urls = ("g", old_url) ∷ [];
  move_states = ("g", record { state = returned; arrival_pending = false }) ∷ [];
}

runs : Unit {0}
unfolding move_target is_waiting get_move_state contains opt_eq find saturating_add saturating_sub
    sub_i64 ◌+ℤ◌ ◌-ℤ◌
runs = tt

-- The return to the left URL is refused for two hours after the second one, and then goes on.
move_target_tests :
    (move_target db "g" old_url old_url [] (some old_url) (pos 8199) ≡ refused old_url)
    × (move_target db "g" old_url old_url [] (some old_url) (pos 8200)
        ≡ move (target old_url new_feed_url (some (pos 3, pos 8200))))
unfolding runs
move_target_tests = (refl, refl)

is_waiting_iff_example :
    (is_waiting returned (pos 8199) ≡ true) ↔ (pos 8199 <ℤ (pos 1000 +ℤ pos (wait_after 1)))
unfolding runs
is_waiting_iff_example =
    is_waiting_iff returned 1 (pos 1000) (pos 8199) refl refl (omega arith)
      (omega arith, omega arith) (omega arith, omega arith) (omega arith, omega arith)

move_target-IsJustified_example :
    IsJustified db "g" old_url old_url []
      (some old_url)
      (pos 8200)
      (move_target db "g" old_url old_url [] (some old_url) (pos 8200))
move_target-IsJustified_example =
    move_target-IsJustified db "g" old_url old_url [] (some old_url) (pos 8200)

abbrev back : FeedMoveWrite
back = record {
  old_url = new_url;
  new_url = old_url;
  arrival_tag = some old_url;
  return_values = some (pos 3, pos 8200);
}

write_feed_move-history_example :
    (is_left (write_feed_move db "g" back).left_urls "g" old_url ≡ (
      (is_left db.left_urls "g" old_url || (str_eq "g" "g" && str_eq new_url old_url))
      && not (str_eq "g" "g" && str_eq old_url old_url)))
    × (get_move_state (write_feed_move db "g" back).move_states "g" ≡ (
        if str_eq "g" "g"
        then set_return
            (some (pos 3, pos 8200))
            (set_tag (some old_url) (get_move_state db.move_states "g"))
        else get_move_state db.move_states "g"))
write_feed_move-history_example = write_feed_move-history db "g" back "g" old_url
