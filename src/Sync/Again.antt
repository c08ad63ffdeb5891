-- ===== src/Sync/Again.antt =====
-- A second delivery of a batch to `apply_events` of src/apply.rs, and its counts.
use stophammer.Common.{
  ℕ, ◌+◌, ◌≡◌, refl, sym, ap, subst, ◌∙◌, Bool, true, not, ◌||◌, Option, some, List, [], ◌∷◌, ◌++◌,
  String, str_eq, eq_iff, any, select, length, is_some, All, All-map, Bool-cases, inl, inr, arith,
  if◌then◌else◌,
}
use stophammer.Common.Int.{ℤ, pos, ◌+ℤ◌, ltb_ℤ}
use stophammer.Sync.Log.{Event, max_seq, with_seq, has_event, insert_event_idempotent}
use stophammer.Sync.Apply.{
  Writer, Replica, duplicate, ApplySummary, apply_single_event_inner, Batch, count_event,
  apply_batch, commit_batch, start, no_events, reject, is_empty, apply_events,
}
use stophammer.Sync.Batch.{inner-log, count_event-db}

has_event-append :
    (k : String) (log : List Event) (e : Event)
    → has_event k (log ++ (e ∷ [])) ≡ (has_event k log || str_eq e.event_id k)
unfolding has_event any
has_event-append k [] e = ground arith
has_event-append k (f ∷ log) e = ground (arith, has_event-append k log e)

insert-has_event :
    (log : List Event) (ev : Event) (k : String)
    → has_event k (insert_event_idempotent log ev).0 ≡ (has_event k log || str_eq ev.event_id k)
unfolding insert_event_idempotent
insert-has_event log ev k = elim (Bool-cases (has_event ev.event_id log)) [
  | inr e ↦ rw e (has_event-append k log (with_seq ev (max_seq log +ℤ pos 1)))
  | inl e ↦ rw e (elim (Bool-cases (str_eq ev.event_id k)) [
    | inr d ↦ ground arith
    | inl d ↦
        let same : ev.event_id ≡ k = (eq_iff ev.event_id k).0 d in
        let there : has_event k log ≡ true = ap (λ x. has_event x log) (sym same) ∙ e in
        ground arith
  ])
]

module _ {Tables Payload : Type 0} (w : Writer Tables Payload) where
  inner-has_event :
      (db : Replica Tables) (ev : Event) (k : String)
      → has_event k (apply_single_event_inner w db ev).0.log
        ≡ (has_event k db.log || str_eq ev.event_id k)
  inner-has_event db ev k = ap (has_event k) (inner-log w db ev) ∙ insert-has_event db.log ev k

  count-has_event :
      (b : Batch w) (ev : Event) (k : String)
      → has_event k (count_event w ev b (apply_single_event_inner w b.db ev)).db.log
        ≡ (has_event k b.db.log || str_eq ev.event_id k)
  count-has_event b ev k =
      ap (λ x. has_event k x.log) (count_event-db w ev b (apply_single_event_inner w b.db ev))
      ∙ inner-has_event b.db ev k

  apply_batch-keeps_event :
      (b c : Batch w) (events : List Event) (k : String)
      → apply_batch w b events ≡ some c
      → has_event k b.db.log ≡ true
      → has_event k c.db.log ≡ true
  unfolding apply_batch
  apply_batch-keeps_event b c [] k e h =
      let same : b ≡ c = ground arith in subst (λ x. has_event k x.db.log ≡ true) same h
  apply_batch-keeps_event b c (ev ∷ rest) k e h =
      apply_batch-keeps_event (count_event w ev b (apply_single_event_inner w b.db ev)) c rest k
        (ground arith) (count-has_event b ev k ∙ ground arith)

  apply_batch-has_event :
      (b c : Batch w) (events : List Event)
      → apply_batch w b events ≡ some c
      → All (λ ev. has_event ev.event_id c.db.log ≡ true) events
  unfolding apply_batch
  apply_batch-has_event b c [] e = tt
  apply_batch-has_event b c (ev ∷ rest) e =
      let next = count_event w ev b (apply_single_event_inner w b.db ev) in
      let later : apply_batch w next rest ≡ some c = ground arith in
      let self : str_eq ev.event_id ev.event_id ≡ true = (eq_iff ev.event_id ev.event_id).1 refl in
      (
        apply_batch-keeps_event next c rest ev.event_id later
            (count-has_event b ev ev.event_id ∙ ground arith),
        apply_batch-has_event next c rest later,
      )

  -- A row that is there: nothing is written.
  inner-duplicate :
      (db : Replica Tables) (ev : Event)
      → has_event ev.event_id db.log ≡ true
      → apply_single_event_inner w db ev ≡ (db, duplicate)
  unfolding apply_single_event_inner insert_event_idempotent
  inner-duplicate db ev h = rw h refl

  -- What a batch of duplicates leaves.
  pub record IsAgain (b : Batch w) (n : ℕ) (o : Option (Batch w)) : Type 0 where
    pub result : Batch w
    pub ends : o ≡ some result
    pub same_db : result.db ≡ b.db
    pub same_applied : result.summary.n_applied ≡ b.summary.n_applied
    pub all_duplicate : result.summary.n_duplicate ≡ b.summary.n_duplicate + n
    pub same_rejected : result.summary.n_rejected ≡ b.summary.n_rejected

  apply_batch-IsAgain :
      (b : Batch w) (events : List Event)
      → All (λ ev. has_event ev.event_id b.db.log ≡ true) events
      → All (λ ev. is_some (w.decode ev) ≡ true) events
      → IsAgain b (length events) (apply_batch w b events)
  unfolding apply_batch
  apply_batch-IsAgain b [] h d = record {
    result = b;
    ends = refl;
    same_db = refl;
    same_applied = refl;
    all_duplicate = omega arith;
    same_rejected = refl;
  }
  apply_batch-IsAgain b (ev ∷ rest) (h, hs) (d, ds) =
      let step : apply_single_event_inner w b.db ev ≡ (b.db, duplicate) =
        inner-duplicate b.db ev h in
      let later = apply_batch-IsAgain (count_event w ev b (b.db, duplicate)) rest hs ds in
      rw d (record {
        result = later.result;
        ends = ap (λ r. apply_batch w (count_event w ev b r) rest) step ∙ later.ends;
        same_db = later.same_db;
        same_applied = later.same_applied;
        all_duplicate = omega (arith, later.all_duplicate);
        same_rejected = later.same_rejected;
      })

  apply_batch-ends :
      (b : Batch w) (events : List Event)
      → All (λ ev. is_some (w.decode ev) ≡ true) events
      → (c : Batch w) × (apply_batch w b events ≡ some c)
  unfolding apply_batch
  apply_batch-ends b [] d = (b, refl)
  apply_batch-ends b (ev ∷ rest) (d, ds) =
      rw d (apply_batch-ends (count_event w ev b (apply_single_event_inner w b.db ev)) rest ds)

  commit-log :
      (now : ℤ) (db : Replica Tables) (n m : ℕ) (c : Batch w)
      → ((commit_batch w now db n m (some c)).0.log ≡ c.db.log)
        × ((commit_batch w now db n m (some c)).0.tables ≡ c.db.tables)
  commit-log now db n m c = elim (Bool-cases (ltb_ℤ (pos 0) c.max_primary_seq)) [
    | inl e ↦ rw e (refl, refl)
    | inr e ↦ rw e (refl, refl)
  ]

  module _ (verify : Event → Bool) (events : List Event) where
    abbrev good : List Event
    good = select verify events

    -- Nothing is written: each event whose signature holds is a duplicate.
    pub record IsRepeat (db : Replica Tables) (r : Replica Tables × ApplySummary) : Type 0 where
      pub same_log : r.0.log ≡ db.log
      pub same_tables : r.0.tables ≡ db.tables
      pub none_applied : r.1.n_applied ≡ 0
      pub duplicates : r.1.n_duplicate ≡ length (select verify events)
      pub rejections : r.1.n_rejected ≡ length (select (λ e. not (verify e)) events)

    commit-IsRepeat :
        (now : ℤ) (db : Replica Tables)
        → All (λ ev. has_event ev.event_id db.log ≡ true) good
        → All (λ ev. is_some (w.decode ev) ≡ true) good
        → IsRepeat db (
            commit_batch w now db
              (length (select (λ e. not (verify e)) events))
              (length good)
              (apply_batch w (start w db) good))
    commit-IsRepeat now db h d =
        let again = apply_batch-IsAgain (start w db) good h d in
        let bad = length (select (λ e. not (verify e)) events) in
        subst (λ o. IsRepeat db (commit_batch w now db bad (length good) o)) (sym again.ends)
          (record {
            same_log =
                (commit-log now db bad (length good) again.result).0
                ∙ ap (λ x. x.log) again.same_db;
            same_tables =
                (commit-log now db bad (length good) again.result).1
                ∙ ap (λ x. x.tables) again.same_db;
            none_applied = again.same_applied;
            duplicates = omega (arith, again.all_duplicate);
            rejections = omega (arith, again.same_rejected);
          })

    apply_events-IsRepeat :
        (now : ℤ) (db : Replica Tables)
        → All (λ ev. has_event ev.event_id db.log ≡ true) good
        → All (λ ev. is_some (w.decode ev) ≡ true) good
        → IsRepeat db (apply_events w verify now true db events)
    unfolding apply_events
    apply_events-IsRepeat now db h d = by_list good refl (commit-IsRepeat now db h d)
      where
        bad : ℕ
        bad = length (select (λ e. not (verify e)) events)

        by_list :
            (l : List Event)
            → good ≡ l
            → IsRepeat db
                (commit_batch w now db bad (length good) (apply_batch w (start w db) good))
            → IsRepeat db (
                if is_empty w l
                then (db, reject w bad (no_events w))
                else commit_batch w now db bad (length good) (apply_batch w (start w db) good))
        by_list [] e r = record {
          same_log = refl;
          same_tables = refl;
          none_applied = refl;
          duplicates = sym (ap length e);
          rejections = omega arith;
        }
        by_list (x ∷ l) e r = r

    abbrev IsIn : Replica Tables → Event → Type 0
    IsIn x ev = has_event ev.event_id x.log ≡ true

    first-has_event :
        (now : ℤ) (db : Replica Tables)
        → All (λ ev. is_some (w.decode ev) ≡ true) good
        → All
            (λ ev. has_event ev.event_id (apply_events w verify now true db events).0.log ≡ true)
            good
    unfolding apply_events
    first-has_event now db d = by_list good refl (
        let (c, ends) = apply_batch-ends (start w db) good d in
        All-map (λ ev. has_event ev.event_id c.db.log ≡ true) _ good
          (λ ev h.
            ap (λ o. has_event ev.event_id (commit_batch w now db bad (length good) o).0.log) ends
            ∙ ap (has_event ev.event_id) (commit-log now db bad (length good) c).0
            ∙ h)
          (apply_batch-has_event (start w db) c good ends))
      where
        bad : ℕ
        bad = length (select (λ e. not (verify e)) events)

        whole : Replica Tables × ApplySummary
        whole = commit_batch w now db bad (length good) (apply_batch w (start w db) good)

        by_list :
            (l : List Event)
            → good ≡ l
            → All (IsIn whole.0) good
            → All (IsIn (if is_empty w l then (db, reject w bad (no_events w)) else whole).0) good
        by_list [] e h = subst (λ l. All (IsIn db) l) (sym e) tt
        by_list (x ∷ l) e h = h

    -- A batch that was committed and comes again changes nothing: the log and the tables stay, no event
    -- applies, and the events whose signature holds are the duplicates. That includes an event whose
    -- payload failed to be written the first time. The payloads of those events decode.
    pub apply_events-again :
        (now later : ℤ) (db : Replica Tables)
        → All (λ ev. is_some (w.decode ev) ≡ true) (select verify events)
        → IsRepeat
            (apply_events w verify now true db events).0
            (apply_events w verify later true (apply_events w verify now true db events).0 events)
    apply_events-again now later db d =
        apply_events-IsRepeat later (apply_events w verify now true db events).0
          (first-has_event now db d) d
