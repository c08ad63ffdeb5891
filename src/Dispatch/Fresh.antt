-- ===== src/Dispatch/Fresh.antt =====
-- A batch of new events (`apply_events` of src/apply.rs): each payload is written once, in the order of
-- the batch.
use stophammer.Common.{
  ℕ, ◌≡◌, refl, sym, ap, subst, ◌∙◌, Bool, true, false, not, ◌||◌, Option, none, some, List, [],
  ◌∷◌, ◌++◌, String, str_eq, any, select, length, All, arith, Bool-cases, inl, inr,
}
use stophammer.Common.Int.{ℤ, pos, ◌+ℤ◌, ltb_ℤ}
use stophammer.Sync.Log.{Event, max_seq, with_seq, has_event, insert_event_idempotent}
use stophammer.Sync.Apply.{
  Writer, Replica, apply_single_event_inner, Batch, count_event, apply_batch, commit_batch, start,
  apply_events,
}
use stophammer.Sync.Batch.{count_event-db}

-- No event is in the log, and no id stands twice.
abbrev pub AreNew : List Event → List Event → Type 0
AreNew log [] = Unit
AreNew log (e ∷ rest) =
    (has_event e.event_id log ≡ false)
    × (All (λ f. str_eq e.event_id f.event_id ≡ false) rest × AreNew log rest)

has_event-append :
    (k : String) (log : List Event) (e : Event)
    → has_event k (log ++ (e ∷ [])) ≡ (has_event k log || str_eq e.event_id k)
unfolding has_event any
has_event-append k [] e = ground arith
has_event-append k (f ∷ log) e = ground (arith, has_event-append k log e)

AreNew-append :
    (log : List Event) (e : Event) (events : List Event)
    → All (λ f. str_eq e.event_id f.event_id ≡ false) events
    → AreNew log events
    → AreNew (log ++ (e ∷ [])) events
AreNew-append log e [] other new = tt
AreNew-append log e (f ∷ rest) other new = (
  has_event-append f.event_id log e ∙ ground arith,
  (new.1.0, AreNew-append log e rest other.1 new.1.1),
)

module _ {Tables Payload : Type 0} (w : Writer Tables Payload) where
  -- The payloads that the events decode to.
  abbrev pub Carries : List Event → List Payload → Type 0
  Carries [] [] = Unit
  Carries [] (p ∷ ps) = ⊥
  Carries (e ∷ es) [] = ⊥
  Carries (e ∷ es) (p ∷ ps) = (w.decode e ≡ some p) × Carries es ps

  -- The writes of the payloads, one after the other.
  unfoldable pub writes : Tables → List Event → List Payload → Tables
  writes t [] ps = t
  writes t (e ∷ es) [] = t
  writes t (e ∷ es) (p ∷ ps) = writes (w.write e p t).0 es ps

  inner-new :
      (db : Replica Tables) (ev : Event) (p : Payload)
      → has_event ev.event_id db.log ≡ false
      → w.decode ev ≡ some p
      → let next = (apply_single_event_inner w db ev).0 in
        (next.log ≡ db.log ++ (with_seq ev (max_seq db.log +ℤ pos 1) ∷ []))
        × (next.tables ≡ (w.write ev p db.tables).0)
  unfolding apply_single_event_inner insert_event_idempotent
  inner-new db ev p new decodes = rw (new, decodes) (refl, refl)

  abbrev pub batch_tables : Option (Batch w) → Option Tables
  batch_tables none = none
  batch_tables (some b) = some b.db.tables

  batch_writes :
      (b : Batch w) (events : List Event) (ps : List Payload)
      → AreNew b.db.log events
      → Carries events ps
      → batch_tables (apply_batch w b events) ≡ some (writes b.db.tables events ps)
  unfolding apply_batch writes
  batch_writes b [] [] new carries = refl
  batch_writes b [] (p ∷ ps) new carries = absurd carries
  batch_writes b (e ∷ es) [] new carries = absurd carries
  batch_writes b (e ∷ es) (p ∷ ps) new carries =
      let r = apply_single_event_inner w b.db e in
      let next = count_event w e b r in
      let same : next.db ≡ r.0 = count_event-db w e b r in
      let step = inner-new b.db e p new.0 carries.0 in
      let log : next.db.log ≡ b.db.log ++ (with_seq e (max_seq b.db.log +ℤ pos 1) ∷ []) =
        ap (λ x. x.log) same ∙ step.0 in
      let tables : next.db.tables ≡ (w.write e p b.db.tables).0 =
        ap (λ x. x.tables) same ∙ step.1 in
      let new_es : AreNew next.db.log es =
        subst (λ l. AreNew l es) (sym log)
          (AreNew-append b.db.log (with_seq e (max_seq b.db.log +ℤ pos 1)) es new.1.0 new.1.1) in
      let later = batch_writes next es ps new_es carries.1 in
      rw carries.0 (later ∙ ap (λ t. some (writes t es ps)) tables)

  committed-tables :
      (now : ℤ) (db : Replica Tables) (n m : ℕ) (o : Option (Batch w)) (t : Tables)
      → batch_tables o ≡ some t
      → (commit_batch w now db n m o).0.tables ≡ t
  committed-tables now db n m none t h = cc
  committed-tables now db n m (some b) t h = elim (Bool-cases (ltb_ℤ (pos 0) b.max_primary_seq)) [
    | inl e ↦ rw e cc
    | inr e ↦ rw e cc
  ]

  all_verified :
      (verify : Event → Bool) (events : List Event)
      → All (λ e. verify e ≡ true) events
      → select verify events ≡ events
  unfolding select
  all_verified verify [] h = refl
  all_verified verify (e ∷ rest) h = rw h.0 (ap (λ l. e ∷ l) (all_verified verify rest h.1))

  pub apply_events-writes :
      (verify : Event → Bool) (now : ℤ) (db : Replica Tables) (events : List Event)
      (ps : List Payload)
      → All (λ e. verify e ≡ true) events
      → AreNew db.log events
      → Carries events ps
      → (apply_events w verify now true db events).0.tables ≡ writes db.tables events ps
  unfolding apply_events writes
  apply_events-writes verify now db [] ps verified new carries = unfold select in refl
  apply_events-writes verify now db (e ∷ es) ps verified new carries =
      let n = length (select (λ x. not (verify x)) (e ∷ es)) in
      rw (all_verified verify (e ∷ es) verified) (
        committed-tables now db n (length (e ∷ es)) (apply_batch w (start w db) (e ∷ es))
          (writes db.tables (e ∷ es) ps) (batch_writes (start w db) (e ∷ es) ps new carries))
