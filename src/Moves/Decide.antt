-- ===== src/Moves/Decide.antt =====
-- `move_target` of src/api.rs: whether a submission moves its record.
-- `now` is the clock, read once; the code reads it where it needs it.
use stophammer.Common.{
  ℕ, Bool, true, false, not, ◌&&◌, ◌||◌, Option, none, some, List, [], ◌∷◌, String, str_eq, opt_eq,
  ◌==◌, all, contains, if◌then◌else◌,
}
use stophammer.Common.Int.{ℤ, pos, saturating_add, ltb_ℤ}
use stophammer.Moves.State.{
  FeedRow, MoveState, MoveDb, SubmissionClass, record_conflict, guid_change, update, mirror,
  new_feed, has_guid, first_row, classify_submission, get_left_urls, get_move_state,
  effective_return_count, return_cooldown_end,
}

pub record RedirectHop : Type 0 where
  pub url : String
  pub status : ℕ

pub data Trigger : Type 0 where
  new_feed_url self_link permanent_redirect : Trigger

pub record MoveTarget : Type 0 where
  pub new_feed_url : String
  pub trigger : Trigger
  pub return_values : Option (ℤ × ℤ)

pub data MoveDecision : Type 0 where
  no_trigger : MoveDecision
  move : MoveTarget → MoveDecision
  refused : String → MoveDecision
  waiting_redirect : String → MoveDecision

unfoldable pub next_return_values : MoveState → ℤ → ℤ × ℤ
unfolding effective_return_count
next_return_values state now = (
  saturating_add (effective_return_count state.return_count state.last_return_at now) (pos 1),
  now,
)

abbrev pub is_after : ℤ → Option ℤ → Bool
is_after now none = false
is_after now (some end) = ltb_ℤ now end

-- `return_cooldown_end(..).is_some_and(|end| end > now)`.
unfoldable pub is_waiting : MoveState → ℤ → Bool
unfolding return_cooldown_end
is_waiting state now =
    is_after now (return_cooldown_end state.return_count state.last_return_at now)

abbrev pub target : String → Trigger → Option (ℤ × ℤ) → MoveTarget
target url trigger returns = record {
  new_feed_url = url;
  trigger = trigger;
  return_values = returns;
}

abbrev pub is_new_feed_url : Trigger → Bool
is_new_feed_url new_feed_url = true
is_new_feed_url self_link = false
is_new_feed_url permanent_redirect = false

abbrev new_feed_url_of : Option FeedRow → Option String
new_feed_url_of none = none
new_feed_url_of (some f) = f.declared_new_feed_url

abbrev self_url_of : Option FeedRow → Option String
self_url_of none = none
self_url_of (some f) = f.declared_self_url

abbrev pub own : String → String → Option String → Option String
own source_url canonical_url none = none
own source_url canonical_url (some url) =
    if str_eq url source_url || str_eq url canonical_url then some url else none

abbrev is_empty_list : List RedirectHop → Bool
is_empty_list [] = true
is_empty_list (hop ∷ rest) = false

module _ (db : MoveDb) (feed_guid source_url canonical_url : String) (redirects : List RedirectHop)
    (body_new_feed_url : Option String) (now : ℤ) where
  abbrev pub left : List String
  left = get_left_urls db.left_urls feed_guid

  abbrev pub state : MoveState
  state = get_move_state db.move_states feed_guid

  -- A mirror trigger matched.
  abbrev pub mirror_move : String → Trigger → MoveDecision
  mirror_move url trigger =
      if not (contains url left)
      then move (target url trigger none)
      else if is_new_feed_url trigger
          && (opt_eq body_new_feed_url (some url)
              && (not (opt_eq state.arrival_tag (some url)) && not (is_waiting state now)))
      then move (target url trigger (some (next_return_values state now)))
      else refused url

  abbrev pub mirror_trigger : Option String → Option String → MoveDecision
  mirror_trigger (some url) _ = mirror_move url new_feed_url
  mirror_trigger none (some url) = mirror_move url self_link
  mirror_trigger none none = no_trigger

  abbrev pub is_no_redirect : FeedRow → Bool
  is_no_redirect feed =
      not (str_eq source_url feed.feed_url)
      || (is_empty_list redirects
          || (str_eq canonical_url feed.feed_url
              || not (all (λ hop. hop.status == 301 || hop.status == 308) redirects)))

  -- Every hop is a permanent redirect.
  abbrev pub permanent_move : MoveDecision
  permanent_move =
      if not (contains canonical_url left)
      then move (target canonical_url permanent_redirect none)
      else if is_waiting state now
      then waiting_redirect canonical_url
      else move (target canonical_url permanent_redirect (some (next_return_values state now)))

  abbrev pub redirect_move : Option FeedRow → MoveDecision
  redirect_move none = no_trigger
  redirect_move (some feed) = if is_no_redirect feed then no_trigger else permanent_move

  abbrev pub decide : Option FeedRow → SubmissionClass → MoveDecision
  decide feed (mirror url) =
      mirror_trigger (own source_url canonical_url (new_feed_url_of feed))
        (own source_url canonical_url (self_url_of feed))
  decide feed update = redirect_move feed
  decide feed record_conflict = no_trigger
  decide feed (guid_change held) = no_trigger
  decide feed new_feed = no_trigger

  unfoldable pub move_target : MoveDecision
  unfolding classify_submission first_row get_left_urls get_move_state is_waiting next_return_values
  move_target =
      decide (first_row (has_guid feed_guid) db.feeds)
        (classify_submission db.feeds feed_guid source_url canonical_url)
