-- ===== src/Sync/Counts.antt =====
-- The counts that `apply_events` of src/apply.rs returns, and the transaction of one event.
use stophammer.Common.{
  ℕ, ◌+◌, ◌≡◌, refl, sym, ap, subst, Bool, true, false, not, Option, none, some, List, [], ◌∷◌,
  ◌++◌, select, length, Bool-cases, inl, inr, arith, if◌then◌else◌,
}
use stophammer.Common.Int.{ℤ, pos, ◌+ℤ◌}
use stophammer.Sync.Log.{Event, max_seq, with_seq, has_event, insert_event_idempotent}
use stophammer.Sync.Apply.{
  Writer, Replica, ApplyOutcome, applied, duplicate, failed, ApplySummary, outcome_of,
  write_payload, apply_single_event_inner, finish_single, apply_single_event, Batch, count_event,
  apply_batch, commit_batch, start, no_events, reject, is_empty, apply_events,
}

abbrev pub total : ApplySummary → ℕ
total s = s.n_applied + s.n_duplicate + s.n_rejected

select-length :
    (p : Event → Bool) (l : List Event)
    → length (select p l) + length (select (λ e. not (p e)) l) ≡ length l
unfolding select
select-length p [] = omega arith
select-length p (e ∷ l) = ground (arith, select-length p l)

module _ {Tables Payload : Type 0} (w : Writer Tables Payload) where
  count_event-total :
      (ev : Event) (b : Batch w) (r : Replica Tables × ApplyOutcome)
      → total (count_event w ev b r).summary ≡ total b.summary + 1
  count_event-total ev b (db, applied seq) = omega arith
  count_event-total ev b (db, duplicate) = omega arith
  count_event-total ev b (db, failed) = omega arith

  apply_batch-total :
      (b c : Batch w) (events : List Event)
      → apply_batch w b events ≡ some c
      → total c.summary ≡ total b.summary + length events
  unfolding apply_batch
  apply_batch-total b c [] e =
      let same : b ≡ c = ground arith in
      omega (
        arith,
        ap (λ x. x.summary.n_applied) same,
        ap (λ x. x.summary.n_duplicate) same,
        ap (λ x. x.summary.n_rejected) same,
      )
  apply_batch-total b c (ev ∷ rest) e =
      let next = count_event w ev b (apply_single_event_inner w b.db ev) in
      omega (
        arith,
        apply_batch-total next c rest (ground arith),
        count_event-total ev b (apply_single_event_inner w b.db ev),
      )

  -- Every event of a batch is counted once: as applied, as a duplicate or as rejected. So it is when the
  -- transaction is rolled back, which counts all of them as rejected.
  pub apply_events-total :
      (verify : Event → Bool) (now : ℤ) (commits : Bool) (db : Replica Tables) (events : List Event)
      → total (apply_events w verify now commits db events).1 ≡ length events
  unfolding apply_events
  apply_events-total verify now commits db events = by_list (select verify events) refl
    where
      bad : ℕ
      bad = length (select (λ e. not (verify e)) events)

      by_result :
          (o : Option (Batch w))
          → ((c : Batch w) → o ≡ some c → total c.summary ≡ length (select verify events))
          → total (commit_batch w now db bad (length (select verify events)) o).1 ≡ length events
      by_result none h = omega (arith, select-length verify events)
      by_result (some c) h = omega (arith, select-length verify events, h c refl)

      by_commit :
          (b : Bool)
          → total
              (commit_batch w now db bad
                (length (select verify events))
                (if b then apply_batch w (start w db) (select verify events) else none)).1
            ≡ length events
      by_commit true =
          by_result (apply_batch w (start w db) (select verify events))
            λ c e. omega (arith, apply_batch-total (start w db) c (select verify events) e)
      by_commit false = by_result none (λ c e. cc)

      by_list :
          (l : List Event)
          → select verify events ≡ l
          → total
              (if is_empty w l
                then (db, reject w bad (no_events w))
                else commit_batch w now db bad
                    (length (select verify events))
                    (if commits then apply_batch w (start w db) (select verify events) else none)).1
            ≡ length events
      by_list [] e = omega (arith, select-length verify events, ap length e)
      by_list (x ∷ l) e = by_commit commits

  -- The payload of the event decodes, all its writes succeeded, and the tables are what they leave.
  abbrev pub IsWritten : Tables → Event → Tables → Option Payload → Type 0
  IsWritten before ev tables none = ⊥
  IsWritten before ev tables (some p) =
      ((w.write ev p before).1 ≡ true) × (tables ≡ (w.write ev p before).0)

  -- What the outcome of one event says of the replica before and after.
  abbrev pub IsAtomic : Replica Tables → Event → Replica Tables × ApplyOutcome → Type 0
  IsAtomic db ev (after, applied seq) =
      (has_event ev.event_id db.log ≡ false)
      × (seq ≡ (max_seq db.log +ℤ pos 1))
      × (after.log ≡ db.log ++ (with_seq ev seq ∷ []))
      × IsWritten db.tables ev after.tables (w.decode ev)
  IsAtomic db ev (after, duplicate) = (has_event ev.event_id db.log ≡ true) × (after ≡ db)
  IsAtomic db ev (after, failed) = after ≡ db

  -- One event is applied as a whole or not at all. Where it applies, its id was new, the log has one more
  -- row, whose `seq` is the next one, its payload decodes, all the writes of the payload succeeded and the
  -- tables are what they leave. A duplicate and a failed event leave the replica as it was.
  pub apply_single_event-IsAtomic :
      (now : ℤ) (db : Replica Tables) (ev : Event) → IsAtomic db ev (apply_single_event w now db ev)
  unfolding apply_single_event apply_single_event_inner insert_event_idempotent
  apply_single_event-IsAtomic now db ev = elim (Bool-cases (has_event ev.event_id db.log)) [
    | inl e ↦ rw e (e, refl)
    | inr e ↦ rw e (by_decode e (w.decode ev) refl)
  ]
    where
      seq : ℤ
      seq = max_seq db.log +ℤ pos 1

      grown : Replica Tables
      grown = record {
        log = db.log ++ (with_seq ev seq ∷ []);
        cursors = db.cursors;
        tables = db.tables;
      }

      by_decode :
          has_event ev.event_id db.log ≡ false
          → (o : Option Payload) → w.decode ev ≡ o
          → IsAtomic db ev (finish_single w now db ev (write_payload w grown ev seq o))
      by_decode e none d = refl
      by_decode e (some p) d = by_write (w.write ev p db.tables).1 refl
        where
          by_write :
              (b : Bool)
              → (w.write ev p db.tables).1 ≡ b
              → IsAtomic db ev (
                  finish_single w now db ev (
                    record {
                      log = grown.log;
                      cursors = db.cursors;
                      tables = (w.write ev p db.tables).0;
                    },
                    outcome_of w seq b,
                  ))
          by_write true written = (
            e,
            refl,
            refl,
            subst (IsWritten db.tables ev (w.write ev p db.tables).0) (sym d) (written, refl),
          )
          by_write false written = refl
