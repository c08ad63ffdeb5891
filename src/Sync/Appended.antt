-- ===== src/Sync/Appended.antt =====
-- What `apply_events` of src/apply.rs leaves in the event log.
use stophammer.Common.{
  ◌≡◌, refl, sym, ap, subst, ◌∙◌, Bool, true, false, List, [], ◌∷◌, ◌++◌, select, select-All, All,
  All-map, All-append, Any, here, there, Bool-cases, inl, inr, if◌then◌else◌,
}
use stophammer.Common.Int.{ℤ, pos, ◌+ℤ◌}
use stophammer.Sync.Log.{Event, max_seq, with_seq, has_event, insert_event_idempotent}
use stophammer.Sync.Apply.{Writer, Replica, apply_events}
use stophammer.Sync.Order.{IsLog, insert_event_idempotent-IsLog}
use stophammer.Sync.Batch.{inner-log, apply_events-keeps}

append_nil : (l : List Event) → l ++ [] ≡ l
append_nil [] = refl
append_nil (x ∷ l) = ap (λ m. x ∷ m) (append_nil l)

append_assoc : (l m n : List Event) → (l ++ m) ++ n ≡ l ++ (m ++ n)
append_assoc [] m n = refl
append_assoc (x ∷ l) m n = ap (λ k. x ∷ k) (append_assoc l m n)

-- A row that an event of the list gave, its `seq` aside.
abbrev pub IsCopy : (Event → Bool) → List Event → Event → Type 0
IsCopy verify events row =
    Any (λ ev. (verify ev ≡ true) × ((seq : ℤ) × (row ≡ with_seq ev seq))) events

-- The log grew at its end, by copies of events whose signature holds.
pub record Extends (verify : Event → Bool) (events log grown : List Event) : Type 0 where
  pub new_rows : List Event
  pub appended : grown ≡ log ++ new_rows
  pub copies : All (IsCopy verify events) new_rows

verified_copies :
    (verify : Event → Bool) (events : List Event)
    → All (λ ev. (seq : ℤ) → IsCopy verify events (with_seq ev seq)) (select verify events)
unfolding select
verified_copies verify [] = tt
verified_copies verify (e ∷ rest) = by_case (verify e) refl (
    All-map (λ ev. (seq : ℤ) → IsCopy verify rest (with_seq ev seq)) _ (select verify rest)
      (λ ev h seq. there (h seq)) (verified_copies verify rest))
  where
    by_case :
        (b : Bool)
        → verify e ≡ b
        → All (λ ev. (seq : ℤ) → IsCopy verify (e ∷ rest) (with_seq ev seq)) (select verify rest)
        → All
            (λ ev. (seq : ℤ) → IsCopy verify (e ∷ rest) (with_seq ev seq))
            (if b then e ∷ select verify rest else select verify rest)
    by_case true h later = ((λ seq. here (h, (seq, refl))), later)
    by_case false h later = later

insert-Extends :
    (verify : Event → Bool) (events log grown : List Event) (ev : Event)
    → ((seq : ℤ) → IsCopy verify events (with_seq ev seq))
    → Extends verify events log grown
    → Extends verify events log (insert_event_idempotent grown ev).0
unfolding insert_event_idempotent
insert-Extends verify events log grown ev copy x = elim (Bool-cases (has_event ev.event_id grown)) [
  | inl e ↦ rw e x
  | inr e ↦ rw e (record {
    new_rows = x.new_rows ++ (with_seq ev (max_seq grown +ℤ pos 1) ∷ []);
    appended =
        ap (λ l. l ++ (with_seq ev (max_seq grown +ℤ pos 1) ∷ [])) x.appended
        ∙ append_assoc log x.new_rows (with_seq ev (max_seq grown +ℤ pos 1) ∷ []);
    copies = All-append _ x.new_rows _ x.copies (copy (max_seq grown +ℤ pos 1), tt);
  })
]

module _ {Tables Payload : Type 0} (w : Writer Tables Payload) where
  -- After any batch the log is in the order of `seq` with no event twice, if it was so before.
  pub apply_events-IsLog :
      (verify : Event → Bool) (now : ℤ) (commits : Bool) (db : Replica Tables) (events : List Event)
      → IsLog db.log
      → IsLog (apply_events w verify now commits db events).0.log
  apply_events-IsLog verify now commits db events =
      apply_events-keeps w (λ x. IsLog x.log) (λ ev. verify ev ≡ true)
        (λ x ev q h.
          subst IsLog (sym (inner-log w x ev)) (insert_event_idempotent-IsLog x.log ev h))
        verify now commits db events (λ seq x q h. h) (select-All verify events)

  -- A batch adds rows to the end of the log and changes no row before. Each new row is an event of the
  -- batch whose signature holds, with a `seq` of this node.
  pub apply_events-Extends :
      (verify : Event → Bool) (now : ℤ) (commits : Bool) (db : Replica Tables) (events : List Event)
      → Extends verify events db.log (apply_events w verify now commits db events).0.log
  apply_events-Extends verify now commits db events =
      apply_events-keeps w (λ x. Extends verify events db.log x.log)
        (λ ev. (seq : ℤ) → IsCopy verify events (with_seq ev seq))
        (λ x ev q h.
          subst (Extends verify events db.log) (sym (inner-log w x ev))
            (insert-Extends verify events db.log x.log ev q h))
        verify now commits db events (λ seq x q h. h) (verified_copies verify events)
        (record { new_rows = []; appended = sym (append_nil db.log); copies = tt })
