-- ===== src/Sync/Order.antt =====
-- What `apply_events` of src/apply.rs leaves in the event log.
use stophammer.Common.{
  ℕ, ◌+◌, ◌≤◌, ◌≡◌, refl, false, List, [], ◌∷◌, ◌++◌, String, str_eq, eq_iff, any, All, All-map,
  Bool-cases, inl, inr, arith, if◌then◌else◌,
}
use stophammer.Common.Int.{pos, ◌+ℤ◌, ◌<ℤ◌, ◌≤ℤ◌}
use stophammer.Sync.Log.{Event, max_ℤ, max_seq, with_seq, has_event, insert_event_idempotent}

abbrev pub count_id : String → List Event → ℕ
count_id k [] = 0
count_id k (e ∷ rest) = (if str_eq e.event_id k then 1 else 0) + count_id k rest

abbrev pub IsOrdered : List Event → Type 0
IsOrdered [] = Unit
IsOrdered (e ∷ rest) = All (λ f. e.seq <ℤ f.seq) rest × IsOrdered rest

-- A log in the order of `seq`, with no `seq` and no event id twice.
pub record IsLog (log : List Event) : Type 0 where
  pub ordered : IsOrdered log
  pub once : (k : String) → count_id k log ≤ 1

max_seq-ge : (log : List Event) → All (λ e. e.seq ≤ℤ max_seq log) log
unfolding max_seq
max_seq-ge [] = tt
max_seq-ge (e ∷ rest) = (
  ground arith,
  All-map (λ f. f.seq ≤ℤ max_seq rest) (λ f. f.seq ≤ℤ max_ℤ e.seq (max_seq rest)) rest
      (λ f h. ground arith) (max_seq-ge rest),
)

IsOrdered-append :
    (log : List Event) (e : Event)
    → All (λ f. f.seq <ℤ e.seq) log
    → IsOrdered log
    → IsOrdered (log ++ (e ∷ []))
IsOrdered-append [] e h o = (tt, tt)
IsOrdered-append (f ∷ log) e h o = (snoc log o.0, IsOrdered-append log e h.1 o.1)
  where
    snoc :
        (l : List Event) → All (λ g. f.seq <ℤ g.seq) l → All (λ g. f.seq <ℤ g.seq) (l ++ (e ∷ []))
    snoc [] q = (h.0, tt)
    snoc (g ∷ l) q = (q.0, snoc l q.1)

count_id-append :
    (k : String) (log : List Event) (e : Event)
    → count_id k (log ++ (e ∷ [])) ≡ count_id k log + (if str_eq e.event_id k then 1 else 0)
count_id-append k [] e = ground arith
count_id-append k (f ∷ log) e = ground (arith, count_id-append k log e)

count_id-has_event : (k : String) (log : List Event) → has_event k log ≡ false → count_id k log ≡ 0
unfolding has_event any
count_id-has_event k [] h = refl
count_id-has_event k (e ∷ rest) h = ground (arith, count_id-has_event k rest)

next_seq-gt : (log : List Event) → All (λ e. e.seq <ℤ (max_seq log +ℤ pos 1)) log
unfolding ◌+ℤ◌
next_seq-gt log =
    All-map (λ e. e.seq ≤ℤ max_seq log) (λ e. e.seq <ℤ (max_seq log +ℤ pos 1)) log
      (λ e h. ground arith) (max_seq-ge log)

pub insert_event_idempotent-IsLog :
    (log : List Event) (ev : Event) → IsLog log → IsLog (insert_event_idempotent log ev).0
unfolding insert_event_idempotent
insert_event_idempotent-IsLog log ev h = elim (Bool-cases (has_event ev.event_id log)) [
  | inl e ↦ rw e h
  | inr e ↦ rw e (record {
    ordered = IsOrdered-append log _ (next_seq-gt log) h.ordered;
    once = λ k. ground (
      arith,
      count_id-append k log (with_seq ev (max_seq log +ℤ pos 1)),
      h.once k,
      count_id-has_event ev.event_id log e,
      eq_iff ev.event_id k,
    );
  })
]
