-- ===== src/Sync/Batch.antt =====
-- The loop of `apply_events` in src/apply.rs: what each event keeps, the batch keeps.
use stophammer.Common.{
  ℕ, ◌≡◌, refl, sym, subst, Bool, true, false, not, Option, none, some, List, [], ◌∷◌, select,
  length, All, Bool-cases, inl, inr, arith, if◌then◌else◌,
}
use stophammer.Common.Int.{ℤ, pos, ltb_ℤ}
use stophammer.Sync.Log.{Event, insert_event_idempotent}
use stophammer.Sync.Apply.{
  Writer, Replica, ApplyOutcome, applied, duplicate, failed, write_payload, after_insert,
  apply_single_event_inner, move_cursor, Batch, count_event, apply_batch, commit_batch, start,
  no_events, reject, is_empty, apply_events,
}

module _ {Tables Payload : Type 0} (w : Writer Tables Payload) where
  pub inner-log :
      (db : Replica Tables) (ev : Event)
      → (apply_single_event_inner w db ev).0.log ≡ (insert_event_idempotent db.log ev).0
  unfolding apply_single_event_inner
  inner-log db ev = by_insert (insert_event_idempotent db.log ev)
    where
      by_decode :
          (db2 : Replica Tables) (seq : ℤ) (o : Option Payload)
          → (write_payload w db2 ev seq o).0.log ≡ db2.log
      by_decode db2 seq none = refl
      by_decode db2 seq (some p) = refl

      by_insert : (r : List Event × Option ℤ) → (after_insert w db ev r).0.log ≡ r.0
      by_insert (log, none) = refl
      by_insert (log, some seq) = by_decode _ seq (w.decode ev)

  pub count_event-db :
      (ev : Event) (b : Batch w) (r : Replica Tables × ApplyOutcome)
      → (count_event w ev b r).db ≡ r.0
  count_event-db ev b (db, applied seq) = refl
  count_event-db ev b (db, duplicate) = refl
  count_event-db ev b (db, failed) = refl

  -- What each event of a batch keeps of the replica, the whole batch keeps.
  module _ (P : Replica Tables → Type 0) (Q : Event → Type 0)
      (step : (db : Replica Tables) (ev : Event)
        → Q ev
        → P db
        → P (apply_single_event_inner w db ev).0) where
    apply_batch-keeps :
        (b c : Batch w) (events : List Event)
        → All Q events
        → P b.db
        → apply_batch w b events ≡ some c
        → P c.db
    unfolding apply_batch
    apply_batch-keeps b c [] q p e = let same : b ≡ c = ground arith in subst (λ x. P x.db) same p
    apply_batch-keeps b c (ev ∷ rest) q p e =
        apply_batch-keeps (count_event w ev b (apply_single_event_inner w b.db ev)) c rest q.1
          (subst P (sym (count_event-db ev b (apply_single_event_inner w b.db ev)))
            (step b.db ev q.0 p))
          (ground arith)

    pub apply_events-keeps :
        (verify : Event → Bool) (now : ℤ) (commits : Bool) (db : Replica Tables)
        (events : List Event)
        → ((seq : ℤ) (x : Replica Tables)
            → ltb_ℤ (pos 0) seq ≡ true
            → P x
            → P (move_cursor w now seq x))
        → All Q (select verify events)
        → P db
        → P (apply_events w verify now commits db events).0
    unfolding apply_events
    apply_events-keeps verify now commits db events mv q p =
        by_empty (is_empty w (select verify events))
      where
        n_bad : ℕ
        n_bad = length (select (λ e. not (verify e)) events)

        batch : Option (Batch w) → Replica Tables
        batch o = (commit_batch w now db n_bad (length (select verify events)) o).0

        by_result :
            (o : Option (Batch w))
            → apply_batch w (start w db) (select verify events) ≡ o
            → P (batch o)
        by_result none e = p
        by_result (some b) e =
            let kept : P b.db = apply_batch-keeps (start w db) b (select verify events) q p e in
            elim (Bool-cases (ltb_ℤ (pos 0) b.max_primary_seq)) [
              | inl h ↦ rw h (mv b.max_primary_seq b.db h kept)
              | inr h ↦ rw h kept
            ]

        by_commit :
            (c : Bool)
            → P (batch (if c then apply_batch w (start w db) (select verify events) else none))
        by_commit true = by_result (apply_batch w (start w db) (select verify events)) refl
        by_commit false = p

        by_empty :
            (b : Bool)
            → P
                (if b
                  then (db, reject w n_bad (no_events w))
                  else commit_batch w now db n_bad (length (select verify events)) (
                      if commits
                      then apply_batch w (start w db) (select verify events)
                      else none)).0
        by_empty true = p
        by_empty false = by_commit commits
