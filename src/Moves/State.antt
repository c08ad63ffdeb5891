-- ===== src/Moves/State.antt =====
-- The tables that a move reads and writes (src/db.rs): `feeds`, `feed_left_urls`, `feed_move_state`.
-- SQL statements are taken to succeed. The order of the left URLs is that of the table: the code only
-- tests membership.
use stophammer.Common.{
  ℕ, ◌*◌, ◌^◌, ◌-◌, min, Bool, true, false, not, ◌&&◌, ◌||◌, Option, none, some, List, [], ◌∷◌,
  ◌++◌, String, str_eq, opt_eq, ltb, contains, if◌then◌else◌,
}
use stophammer.Common.Int.{ℤ, pos, negsuc, sub_i64, saturating_add, saturating_sub, ltb_ℤ}
use stophammer.Common.Keyed.{find, put}

-- The columns of `feeds` that the code reads here.
pub record FeedRow : Type 0 where
  pub feed_guid : String
  pub feed_url : String
  pub declared_new_feed_url : Option String
  pub declared_self_url : Option String

pub record MoveState : Type 0 where
  pub arrival_tag : Option String
  pub return_count : ℤ
  pub last_return_at : Option ℤ

pub record MoveRow : Type 0 where
  pub state : MoveState
  pub arrival_pending : Bool

pub record MoveDb : Type 0 where
  pub feeds : List FeedRow
  pub left_urls : List (String × String)
  pub move_states : List (String × MoveRow)

pub record FeedMoveWrite : Type 0 where
  pub old_url : String
  pub new_url : String
  pub arrival_tag : Option String
  pub return_values : Option (ℤ × ℤ)

pub data SubmissionClass : Type 0 where
  record_conflict : SubmissionClass
  guid_change : String → SubmissionClass
  update : SubmissionClass
  mirror : String → SubmissionClass
  new_feed : SubmissionClass

abbrev pub default_state : MoveState
default_state = record { arrival_tag = none; return_count = pos 0; last_return_at = none }

-- A SELECT that takes the first row.
unfoldable pub first_row : (FeedRow → Bool) → List FeedRow → Option FeedRow
first_row p [] = none
first_row p (f ∷ rest) = if p f then some f else first_row p rest

abbrev pub has_guid : String → FeedRow → Bool
has_guid feed_guid f = str_eq f.feed_guid feed_guid

abbrev pub conflicts : String → String → String → FeedRow → Bool
conflicts feed_guid source_url canonical_url f =
    (str_eq f.feed_url source_url || str_eq f.feed_url canonical_url)
    && not (str_eq f.feed_guid feed_guid)

abbrev pub class_of : String → String → Option FeedRow → Option FeedRow → SubmissionClass
class_of source_url canonical_url none (some held) = guid_change held.feed_guid
class_of source_url canonical_url (some own) (some held) = record_conflict
class_of source_url canonical_url none none = new_feed
class_of source_url canonical_url (some own) none =
    if str_eq own.feed_url source_url || str_eq own.feed_url canonical_url
    then update
    else mirror own.feed_url

unfoldable pub classify_submission : List FeedRow → String → String → String → SubmissionClass
unfolding first_row
classify_submission feeds feed_guid source_url canonical_url =
    class_of source_url canonical_url (first_row (has_guid feed_guid) feeds)
      (first_row (conflicts feed_guid source_url canonical_url) feeds)

unfoldable pub get_left_urls : List (String × String) → String → List String
get_left_urls [] feed_guid = []
get_left_urls ((guid, url) ∷ rest) feed_guid =
    let later = get_left_urls rest feed_guid in if str_eq guid feed_guid then url ∷ later else later

-- INSERT OR IGNORE.
unfoldable pub add_left_url : List (String × String) → String → String → List (String × String)
unfolding get_left_urls
add_left_url rows feed_guid url =
    if contains url (get_left_urls rows feed_guid) then rows else rows ++ ((feed_guid, url) ∷ [])

unfoldable pub remove_left_url : List (String × String) → String → String → List (String × String)
remove_left_url [] feed_guid url = []
remove_left_url ((g, u) ∷ rest) feed_guid url =
    let later = remove_left_url rest feed_guid url in
    if str_eq g feed_guid && str_eq u url then later else (g, u) ∷ later

abbrev pub return_wait_base_secs : ℕ
return_wait_base_secs = 3600

abbrev pub return_wait_limit_secs : ℕ
return_wait_limit_secs = 604800

abbrev pub return_count_reset_secs : ℕ
return_count_reset_secs = 2592000

unfoldable pub effective_return_count : ℤ → Option ℤ → ℤ → ℤ
effective_return_count count none now = pos 0
effective_return_count count (some last) now =
    if ltb_ℤ (pos 0) count && ltb_ℤ (saturating_sub now last) (pos return_count_reset_secs)
    then count
    else pos 0

-- `u32::try_from(n).unwrap_or(u32::MAX)`.
abbrev u32_or_max : ℤ → ℕ
u32_or_max (pos n) = if ltb n (2 ^ 32) then n else 2 ^ 32 - 1
u32_or_max (negsuc n) = 2 ^ 32 - 1

abbrev pub wait_of : ℤ → ℕ
wait_of effective =
    min (return_wait_base_secs * 2 ^ min (u32_or_max (sub_i64 effective (pos 1))) 20)
      return_wait_limit_secs

abbrev pub add_wait : ℕ → Option ℤ → Option ℤ
add_wait wait none = none
add_wait wait (some last) = some (saturating_add last (pos wait))

unfoldable pub return_cooldown_end : ℤ → Option ℤ → ℤ → Option ℤ
unfolding effective_return_count
return_cooldown_end count last_return_at now =
    let effective = effective_return_count count last_return_at now in
    if ltb_ℤ effective (pos 1) then none else add_wait (wait_of effective) last_return_at

abbrev pub state_of_row : Option MoveRow → MoveState
state_of_row none = default_state
state_of_row (some row) = row.state

unfoldable pub get_move_state : List (String × MoveRow) → String → MoveState
get_move_state rows feed_guid = state_of_row (find feed_guid rows)

-- An UPDATE of the row of one GUID.
unfoldable pub update_row :
    (MoveRow → MoveRow) → String → List (String × MoveRow) → List (String × MoveRow)
update_row f feed_guid [] = []
update_row f feed_guid ((g, row) ∷ rest) =
    (g, if str_eq g feed_guid then f row else row) ∷ update_row f feed_guid rest

abbrev pub set_tag : Option String → MoveState → MoveState
set_tag tag s = record {
  arrival_tag = tag;
  return_count = s.return_count;
  last_return_at = s.last_return_at;
}

unfoldable pub clear_arrival_tag_unless :
    List (String × MoveRow) → String → Option String → List (String × MoveRow)
unfolding update_row
clear_arrival_tag_unless rows feed_guid tag =
    update_row
      (λ row. record {
        state =
            set_tag
              (if row.arrival_pending
                then tag
                else if opt_eq row.state.arrival_tag tag
                then row.state.arrival_tag
                else none)
              row.state;
        arrival_pending = false;
      })
      feed_guid rows

abbrev pub set_return : Option (ℤ × ℤ) → MoveState → MoveState
set_return none s = s
set_return (some (count, at)) s = record {
  arrival_tag = s.arrival_tag;
  return_count = count;
  last_return_at = some at;
}

abbrev pub moved_row : FeedMoveWrite → Option MoveRow → MoveRow
moved_row mv old = record {
  state = set_return mv.return_values (set_tag mv.arrival_tag (state_of_row old));
  arrival_pending = false;
}

unfoldable pub write_feed_move : MoveDb → String → FeedMoveWrite → MoveDb
unfolding add_left_url remove_left_url
write_feed_move db feed_guid mv = record {
  feeds = db.feeds;
  left_urls = remove_left_url (add_left_url db.left_urls feed_guid mv.old_url) feed_guid mv.new_url;
  move_states = put feed_guid (moved_row mv (find feed_guid db.move_states)) db.move_states;
}

abbrev pub relocated_row : Option MoveRow → MoveRow
relocated_row old = record {
  state = record {
    arrival_tag = none;
    return_count = pos 0;
    last_return_at = (state_of_row old).last_return_at;
  };
  arrival_pending = true;
}

unfoldable pub write_relocation_state : MoveDb → String → String → String → MoveDb
unfolding add_left_url remove_left_url
write_relocation_state db feed_guid old_url new_url = record {
  feeds = db.feeds;
  left_urls = remove_left_url (add_left_url db.left_urls feed_guid old_url) feed_guid new_url;
  move_states = put feed_guid (relocated_row (find feed_guid db.move_states)) db.move_states;
}
