-- ===== src/Sync/Trust.antt =====
-- Whose events a push adds, and the bounds of a drain (src/community.rs).
use stophammer.Common.{
  ℕ, zero, suc, ◌+◌, ◌≤◌, ◌≡◌, refl, sym, ap, ◌∙◌, Bool, true, false, Option, none, some, List, [],
  ◌∷◌, ◌++◌, String, str_eq, eq_iff, select, length, ltb, All, All-map, here, there, Bool-cases,
  inl, inr, arith, if◌then◌else◌,
}
use stophammer.Common.Int.{ℤ, ◌≤ℤ◌}
use stophammer.Sync.Log.{Event, max_ℤ}
use stophammer.Sync.Apply.{Writer, Replica, ApplySummary, apply_events}
use stophammer.Sync.Appended.{IsCopy, apply_events-Extends}
use stophammer.Sync.Serve.{SyncEventsResponse}
use stophammer.Sync.Pull.{
  Pushing, trusted, max_push_events, handle_sync_push, take_page, poll_page, after_answer, drain,
}

append_nil : (l : List Event) → l ++ [] ≡ l
append_nil [] = refl
append_nil (x ∷ l) = ap (λ m. x ∷ m) (append_nil l)

-- A copy of a selected event carries the signer and a signature that holds.
copy-signed :
    (verify : Event → Bool) (primary : String) (events : List Event) (row : Event)
    → IsCopy verify (select (λ ev. str_eq ev.signed_by primary) events) row
    → row.signed_by ≡ primary
unfolding select
copy-signed verify primary [] row m = elim m [ ]
copy-signed verify primary (e ∷ rest) row m =
    by_case (str_eq e.signed_by primary) refl m (copy-signed verify primary rest row)
  where
    first :
        {l : List Event}
        → str_eq e.signed_by primary ≡ true
        → IsCopy verify (e ∷ l) row
        → (IsCopy verify l row → row.signed_by ≡ primary)
        → row.signed_by ≡ primary
    first h (here (v, (seq, same))) later =
        ap (λ r. r.signed_by) same ∙ (eq_iff e.signed_by primary).0 h
    first h (there m) later = later m

    by_case :
        (b : Bool)
        → str_eq e.signed_by primary ≡ b
        → IsCopy verify
            (if b
              then e ∷ select (λ ev. str_eq ev.signed_by primary) rest
              else select (λ ev. str_eq ev.signed_by primary) rest)
            row
        → (IsCopy verify (select (λ ev. str_eq ev.signed_by primary) rest) row
            → row.signed_by ≡ primary)
        → row.signed_by ≡ primary
    by_case true h m later = first h m later
    by_case false h m later = later m

-- The log grew at its end, by events that the primary signed.
pub record GrowsBy (primary : String) (log grown : List Event) : Type 0 where
  pub new_rows : List Event
  pub appended : grown ≡ log ++ new_rows
  pub signed : All (λ e. e.signed_by ≡ primary) new_rows

module _ {Tables Payload : Type 0} (w : Writer Tables Payload) (verify : Event → Bool) where
  -- A push adds to the log no event but those that name the primary's key as their signer. Rows that
  -- were there stay.
  pub handle_sync_push-GrowsBy :
      (primary : String) (now : ℤ) (commits : Bool) (s : Pushing Tables) (events : List Event)
      → GrowsBy primary s.db.log (handle_sync_push w verify primary now commits s events).0.db.log
  unfolding handle_sync_push
  handle_sync_push-GrowsBy primary now commits s events =
      elim (Bool-cases (ltb max_push_events (length events))) [
        | inl e ↦ rw e (record { new_rows = []; appended = sym (append_nil s.db.log); signed = tt })
        | inr e ↦
            let x =
              apply_events-Extends w verify now commits s.db (trusted w verify primary events) in
            rw e (record {
              new_rows = x.new_rows;
              appended = x.appended;
              signed =
                  All-map _ (λ row. row.signed_by ≡ primary) x.new_rows
                    (λ row c. copy-signed verify primary events row c) x.copies;
            })
      ]

  poll_page-ge :
      (now : ℤ) (commits : Bool) (db : Replica Tables) (last_seq : ℤ) (page : SyncEventsResponse)
      → last_seq ≤ℤ (poll_page w verify now commits (db, last_seq) page).1
  unfolding poll_page
  poll_page-ge now commits db last_seq page =
      by_case (ltb 0 (length page.events)) (apply_events w verify now commits db page.events)
    where
      by_case :
          (b : Bool) (r : Replica Tables × ApplySummary)
          → last_seq
            ≤ℤ (if b
                then take_page w verify last_seq page.next_seq r
                else (db, max_ℤ last_seq page.next_seq)).1
      by_case true (db2, summary) = ground arith
      by_case false r = ground arith

  -- A drain makes no more requests than it is allowed pages, and ends with a cursor that is not before
  -- the one it began with, whatever the primary answers.
  pub drain-bounds :
      (left : ℕ) (commits : ℕ → Bool) (now : ℤ) (poll : ℕ → ℤ → Option SyncEventsResponse) (k : ℕ)
      (db : Replica Tables) (last_seq : ℤ)
      → ((drain w verify left commits now poll k (db, last_seq)).2 ≤ left)
        × (last_seq ≤ℤ (drain w verify left commits now poll k (db, last_seq)).1)
  unfolding drain
  drain-bounds zero commits now poll k db last_seq = (omega arith, omega arith)
  drain-bounds (suc left) commits now poll k db last_seq = by_answer (poll k last_seq) (λ page.
      drain-bounds left commits now poll (k + 1)
        (poll_page w verify now (commits k) (db, last_seq) page).0
        (poll_page w verify now (commits k) (db, last_seq) page).1)
    where
      apply_page : SyncEventsResponse → Replica Tables × ℤ
      apply_page page = poll_page w verify now (commits k) (db, last_seq) page

      go_on : Replica Tables × ℤ → Replica Tables × ℤ × ℕ
      go_on s = drain w verify left commits now poll (k + 1) s

      by_answer :
          (o : Option SyncEventsResponse)
          → ((page : SyncEventsResponse)
              → ((go_on (apply_page page)).2 ≤ left)
                × ((apply_page page).1 ≤ℤ (go_on (apply_page page)).1))
          → ((after_answer w verify apply_page go_on (db, last_seq) o).2 ≤ suc left)
            × (last_seq ≤ℤ (after_answer w verify apply_page go_on (db, last_seq) o).1)
      by_answer none h = (omega arith, omega arith)
      by_answer (some page) h = elim (Bool-cases page.has_more) [
        | inl e ↦ rw e (
          omega (arith, (h page).0),
          omega (arith, (h page).1, poll_page-ge now (commits k) db last_seq page),
        )
        | inr e ↦ rw e (omega arith, poll_page-ge now (commits k) db last_seq page)
      ]
