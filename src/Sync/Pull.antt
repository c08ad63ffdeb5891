-- ===== src/Sync/Pull.antt =====
-- A community node: `handle_sync_push`, one page of the poll loop and its drain, and the HTTPS rule for
-- the discovery of the primary's key (src/community.rs). The pool always gives a reader. `poll` is the
-- answer of the primary to the request with that number and cursor, `none` for an error.
use text.Mathlib.Text.{starts_with}
use stophammer.Common.{
  ℕ, zero, suc, ◌+◌, Bool, true, false, not, ◌||◌, Option, none, some, List, String, str_eq, select,
  length, ltb, if◌then◌else◌,
}
use stophammer.Common.Int.{ℤ}
use stophammer.Sync.Log.{Event, max_ℤ, get_node_sync_cursor}
use stophammer.Sync.Apply.{Writer, Replica, ApplySummary, sync_cursor_key, apply_events}
use stophammer.Sync.Serve.{SyncEventsResponse}

abbrev pub max_push_events : ℕ
max_push_events = 1000

abbrev pub max_drain_pages : ℕ
max_drain_pages = 100

pub record PushResponse : Type 0 where
  pub n_applied : ℕ
  pub n_rejected : ℕ
  pub n_duplicate : ℕ

pub data Pushed : Type 0 where
  bad_request : Pushed
  accepted : PushResponse → Pushed

-- What a push leaves: the replica and the time of the last push.
pub record Pushing (Tables : Type 0) : Type 0 where
  pub db : Replica Tables
  pub last_push_at : ℤ

unfoldable pub require_https_for_discovery : Option String → String → Bool
require_https_for_discovery allow_insecure primary_url =
    if starts_with primary_url "https://"
    then true
    else if starts_with primary_url "http://"
    then is_allowed allow_insecure
    else true
  where
    is_allowed : Option String → Bool
    is_allowed none = false
    is_allowed (some v) = str_eq v "true" || str_eq v "1"

module _ {Tables Payload : Type 0} (w : Writer Tables Payload) (verify : Event → Bool) where
  abbrev pub trusted : String → List Event → List Event
  trusted primary events = select (λ ev. str_eq ev.signed_by primary) events

  abbrev pub push_answer :
      ℕ → ℤ → Pushing Tables → Replica Tables × ApplySummary → Pushing Tables × Pushed
  push_answer pre_rejected now s (db, summary) = (
    record {
      db = db;
      last_push_at =
          if ltb 0 summary.n_applied || ltb 0 summary.n_duplicate then now else s.last_push_at;
    },
    accepted (record {
      n_applied = summary.n_applied;
      n_rejected = summary.n_rejected + pre_rejected;
      n_duplicate = summary.n_duplicate;
    }),
  )

  unfoldable pub handle_sync_push :
      String → ℤ → Bool → Pushing Tables → List Event → Pushing Tables × Pushed
  unfolding apply_events
  handle_sync_push primary now commits s events =
      if ltb max_push_events (length events)
      then (s, bad_request)
      else push_answer (length (select (λ ev. not (str_eq ev.signed_by primary)) events)) now s
          (apply_events w verify now commits s.db (trusted primary events))

  -- The cursor of the loop after a page, from the replica and the counts that the page left.
  abbrev pub next_cursor : ℤ → ℤ → Replica Tables × ApplySummary → ℤ
  next_cursor last_seq next_seq (db, summary) =
      if ltb 0 summary.n_applied
      then max_ℤ last_seq (get_node_sync_cursor db.cursors sync_cursor_key)
      else max_ℤ last_seq next_seq

  abbrev pub take_page : ℤ → ℤ → Replica Tables × ApplySummary → Replica Tables × ℤ
  take_page last_seq next_seq (db, summary) = (db, next_cursor last_seq next_seq (db, summary))

  unfoldable pub poll_page : ℤ → Bool → Replica Tables × ℤ → SyncEventsResponse → Replica Tables × ℤ
  unfolding apply_events get_node_sync_cursor
  poll_page now commits (db, last_seq) page =
      if ltb 0 (length page.events)
      then take_page last_seq page.next_seq (apply_events w verify now commits db page.events)
      else (db, max_ℤ last_seq page.next_seq)

  -- The drain, with the pages that are still allowed. It also gives the number of requests.
  abbrev pub after_answer :
      (SyncEventsResponse → Replica Tables × ℤ)
      → (Replica Tables × ℤ → Replica Tables × ℤ × ℕ)
      → Replica Tables × ℤ
      → Option SyncEventsResponse
      → Replica Tables × ℤ × ℕ
  after_answer apply_page go_on (db, last_seq) none = (db, last_seq, 1)
  after_answer apply_page go_on (db, last_seq) (some page) =
      if page.has_more
      then one_more (go_on (apply_page page))
      else ((apply_page page).0, (apply_page page).1, 1)
    where
      one_more : Replica Tables × ℤ × ℕ → Replica Tables × ℤ × ℕ
      one_more (db, last_seq, n) = (db, last_seq, n + 1)

  unfoldable pub drain :
      ℕ
      → (ℕ → Bool)
      → ℤ
      → (ℕ → ℤ → Option SyncEventsResponse)
      → ℕ
      → Replica Tables × ℤ
      → Replica Tables × ℤ × ℕ
  unfolding poll_page
  drain zero commits now poll k (db, last_seq) = (db, last_seq, 0)
  drain (suc left) commits now poll k (db, last_seq) =
      after_answer (λ page. poll_page now (commits k) (db, last_seq) page)
        (λ s. drain left commits now poll (k + 1) s) (db, last_seq) (poll k last_seq)
