-- ===== src/Moves/History.antt =====
-- The history that a move and a relocation store (src/db.rs).
use stophammer.Common.{
  ◌≡◌, refl, ap, ◌∙◌, Bool, true, false, not, ◌&&◌, ◌||◌, some, List, [], ◌∷◌, ◌++◌, String, str_eq,
  eq_iff, contains, Bool-cases, inl, inr, ◌⊎◌, arith, if◌then◌else◌,
}
use stophammer.Common.Keyed.{find, put, find-put}
use stophammer.Moves.State.{
  MoveRow, MoveDb, FeedMoveWrite, get_left_urls, add_left_url, remove_left_url, get_move_state,
  state_of_row, moved_row, set_tag, set_return, write_feed_move,
}

abbrev pub is_left : List (String × String) → String → String → Bool
is_left rows feed_guid url = contains url (get_left_urls rows feed_guid)

is_left-append :
    (rows : List (String × String)) (guid url g u : String)
    → is_left (rows ++ ((guid, url) ∷ [])) g u
      ≡ (is_left rows g u || (str_eq guid g && str_eq url u))
unfolding get_left_urls contains
is_left-append [] guid url g u = ground arith
is_left-append ((h, v) ∷ rows) guid url g u = ground (arith, is_left-append rows guid url g u)

is_left-add :
    (rows : List (String × String)) (guid url g u : String)
    → is_left (add_left_url rows guid url) g u
      ≡ (is_left rows g u || (str_eq guid g && str_eq url u))
unfolding add_left_url
is_left-add rows guid url g u = elim (Bool-cases (is_left rows guid url)) [
  | inr e ↦ rw e (is_left-append rows guid url g u)
  | inl e ↦ rw e (elim (Bool-cases (str_eq guid g && str_eq url u)) [
    | inr d ↦ rw d (ground arith)
    | inl d ↦
        let same_guid : guid ≡ g = (eq_iff guid g).0 (ground arith) in
        let same_url : url ≡ u = (eq_iff url u).0 (ground arith) in
        rw (d, ← same_guid, ← same_url, e) refl
  ])
]

is_left-remove :
    (rows : List (String × String)) (guid url g u : String)
    → is_left (remove_left_url rows guid url) g u
      ≡ (is_left rows g u && not (str_eq guid g && str_eq url u))
unfolding remove_left_url get_left_urls contains
is_left-remove [] guid url g u = refl
is_left-remove ((h, v) ∷ rows) guid url g u = ground (
  arith,
  is_left-remove rows guid url g u,
  eq_iff h guid,
  eq_iff v url,
  eq_iff guid g,
  eq_iff url u,
  eq_iff h g,
  eq_iff v u,
)

left-after :
    (rows : List (String × String)) (guid old new g u : String)
    → is_left (remove_left_url (add_left_url rows guid old) guid new) g u ≡ (
        (is_left rows g u || (str_eq guid g && str_eq old u))
        && not (str_eq guid g && str_eq new u))
left-after rows guid old new g u =
    is_left-remove (add_left_url rows guid old) guid new g u
    ∙ ap (λ b. b && not (str_eq guid g && str_eq new u)) (is_left-add rows guid old g u)

state-after :
    (rows : List (String × MoveRow)) (guid g : String) (row : MoveRow)
    → get_move_state (put guid row rows) g
      ≡ (if str_eq guid g then row.state else get_move_state rows g)
unfolding get_move_state
state-after rows guid g row =
    ap state_of_row (find-put guid g row rows) ∙ by_case (Bool-cases (str_eq guid g))
  where
    by_case :
        (str_eq guid g ≡ true) ⊎ (str_eq guid g ≡ false)
        → state_of_row (if str_eq guid g then some row else find g rows)
          ≡ (if str_eq guid g then row.state else state_of_row (find g rows))
    by_case (inl e) = rw e refl
    by_case (inr e) = rw e refl

-- After a move the record has left its old URL and not its new one, each other URL is left as before,
-- and so are the URLs of each other record. Its state has the tag of the body at the new URL, and the
-- count and the time of the move if it is a return. The state of each other record stays.
pub write_feed_move-history :
    (db : MoveDb) (guid : String) (mv : FeedMoveWrite) (g u : String)
    → (is_left (write_feed_move db guid mv).left_urls g u ≡ (
        (is_left db.left_urls g u || (str_eq guid g && str_eq mv.old_url u))
        && not (str_eq guid g && str_eq mv.new_url u)))
      × (get_move_state (write_feed_move db guid mv).move_states g ≡ (
          if str_eq guid g
          then set_return mv.return_values
              (set_tag mv.arrival_tag (get_move_state db.move_states g))
          else get_move_state db.move_states g))
unfolding write_feed_move get_move_state
write_feed_move-history db guid mv g u = (
  left-after db.left_urls guid mv.old_url mv.new_url g u,
  state-after db.move_states guid g (moved_row mv (find guid db.move_states))
      ∙ moved (Bool-cases (str_eq guid g)),
)
  where
    moved :
        (str_eq guid g ≡ true) ⊎ (str_eq guid g ≡ false)
        → (if str_eq guid g
            then (moved_row mv (find guid db.move_states)).state
            else get_move_state db.move_states g)
          ≡ (if str_eq guid g
              then set_return mv.return_values
                  (set_tag mv.arrival_tag (get_move_state db.move_states g))
              else get_move_state db.move_states g)
    moved (inl e) = rw (e, (eq_iff guid g).0 e) refl
    moved (inr e) = rw e refl
