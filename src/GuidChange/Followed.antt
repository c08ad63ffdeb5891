-- ===== src/GuidChange/Followed.antt =====
-- A replica that applies the events of src/api.rs on GUID changes, by src/apply.rs.
use stophammer.Common.{
  ◌≡◌, refl, sym, ap, ◌∙◌, true, false, not, ◌&&◌, ◌||◌, Option, none, some, List, [], ◌∷◌, String,
  str_eq, opt_eq, eq_iff, eq_refl, is_some, if◌then◌else◌, arith, Bool-cases, inl, inr,
}
use stophammer.Common.Int.{ℤ}
use stophammer.Common.Text.{trim, is_empty}
use stophammer.Common.Keyed.{find, remove, find-put, find-remove, find-update, map_row}
use stophammer.GuidChange.Table.{
  GuidChangeRow, conflict, seen, upsert_guid_change, get_guid_change, get_guid_change_for_old_guid,
  delete_guid_change, set_guid_change_decision, decided,
}
use stophammer.GuidChange.Record.{
  GuidChangeObserved, GuidChangePendingOutcome, rejected, pending, is_rejected, observed,
  by_existing, record_guid_change_pending_for_ingest, record_guid_change_return_for_ingest,
  apply_observed, apply_decided, GuidChangeDecisionOutcome, bad_request, not_found, done,
  decide_row, handle_guid_change_decision,
}
use stophammer.GuidChange.Stored.{by_existing-find, submitted}

-- `last_seen` is local to the primary.
abbrev pub shared : GuidChangeRow → GuidChangeRow
shared row = record {
  old_guid = row.old_guid;
  new_guid = row.new_guid;
  first_seen = row.first_seen;
  last_seen = none;
  decision = row.decision;
  decision_reason = row.decision_reason;
  decided_at = row.decided_at;
}

abbrev pub Agree : List (String × GuidChangeRow) → List (String × GuidChangeRow) → Type 0
Agree p r = (k : String) → map_row shared (find k p) ≡ map_row shared (find k r)

pub data Request : Type 0 where
  submits : String → String → ℤ → Request
  decides : String → String → String → ℤ → Request

abbrev pub apply_all :
    List GuidChangeObserved → List (String × GuidChangeRow) → List (String × GuidChangeRow)
apply_all [] r = r
apply_all (p ∷ rest) r = apply_all rest (apply_observed p r)

abbrev pub apply_pending :
    GuidChangePendingOutcome → List (String × GuidChangeRow) → List (String × GuidChangeRow)
apply_pending rejected r = r
apply_pending (pending events) r = apply_all events r

abbrev pub apply_decision :
    GuidChangeDecisionOutcome → List (String × GuidChangeRow) → List (String × GuidChangeRow)
apply_decision bad_request r = r
apply_decision not_found r = r
apply_decision (done p) r = apply_decided p r

abbrev pub returned :
    List (String × GuidChangeRow)
    → List (String × GuidChangeRow) × List GuidChangeObserved
    → List (String × GuidChangeRow) × List (String × GuidChangeRow)
returned r (p, events) = (p, apply_all events r)

abbrev pub submitted_to :
    List (String × GuidChangeRow)
    → List (String × GuidChangeRow) × GuidChangePendingOutcome
    → List (String × GuidChangeRow) × List (String × GuidChangeRow)
submitted_to r (p, outcome) = (p, apply_pending outcome r)

abbrev pub decided_for :
    List (String × GuidChangeRow)
    → List (String × GuidChangeRow) × GuidChangeDecisionOutcome
    → List (String × GuidChangeRow) × List (String × GuidChangeRow)
decided_for r (p, outcome) = (p, apply_decision outcome r)

abbrev pub IsHeldBy : String → Option GuidChangeRow → Type 0
IsHeldBy guid none = Unit
IsHeldBy guid (some row) = row.old_guid ≡ guid

-- `held` gives the GUID of the record whose stored URL each URL is.
module _ (held : String → String) where
  -- The primary and the replica after one request. A body that names the GUID of the record is the return
  -- case, any other the pending one.
  unfoldable pub step :
      Request
      → List (String × GuidChangeRow) × List (String × GuidChangeRow)
      → List (String × GuidChangeRow) × List (String × GuidChangeRow)
  unfolding record_guid_change_pending_for_ingest record_guid_change_return_for_ingest
      apply_observed apply_decided handle_guid_change_decision
  step (submits url guid now) (p, r) =
      if str_eq guid (held url)
      then returned r (record_guid_change_return_for_ingest url guid now p)
      else submitted_to r (record_guid_change_pending_for_ingest url (held url) guid now p)
  step (decides guid decision reason now) (p, r) =
      decided_for r (handle_guid_change_decision p guid decision reason now)

  unfoldable pub run :
      List Request
      → List (String × GuidChangeRow) × List (String × GuidChangeRow)
      → List (String × GuidChangeRow) × List (String × GuidChangeRow)
  unfolding step
  run [] both = both
  run (q ∷ rest) both = run rest (step q both)

  abbrev pub IsInStep : List (String × GuidChangeRow) × List (String × GuidChangeRow) → Type 0
  IsInStep both = Agree both.0 both.1 × ((k : String) → IsHeldBy (held k) (find k both.0))

conflict-shared :
    (old_guid new_guid : String) (now first : ℤ) (o q : Option GuidChangeRow)
    → map_row shared o ≡ map_row shared q
    → shared (seen now (conflict o old_guid new_guid first))
      ≡ shared (conflict q old_guid new_guid first)
conflict-shared old_guid new_guid now first none none h = refl
conflict-shared old_guid new_guid now first none (some b) h = cc
conflict-shared old_guid new_guid now first (some a) none h = cc
conflict-shared old_guid new_guid now first (some a) (some b) h = ground arith

observed-find :
    (url old_guid new_guid : String) (first : ℤ) (r : List (String × GuidChangeRow)) (k : String)
    → str_eq new_guid old_guid ≡ false
    → find k (apply_observed (observed url old_guid new_guid first first) r)
      ≡ (if str_eq url k then some (conflict (find url r) old_guid new_guid first) else find k r)
unfolding apply_observed upsert_guid_change
observed-find url old_guid new_guid first r k h = rw h (find-put url k _ r)

-- The row of one URL before and after a submission, with the replica's.
seen-shared :
    (old_guid new_guid : String) (now : ℤ) (row : GuidChangeRow)
    → row.old_guid ≡ old_guid
    → str_eq row.new_guid new_guid ≡ true
    → shared (submitted old_guid new_guid now (some row)) ≡ shared row
seen-shared old_guid new_guid now row h same = ground (arith, eq_iff row.new_guid new_guid)

module _ (url old_guid new_guid : String) (now : ℤ) (p r : List (String × GuidChangeRow))
    (agree : Agree p r) (other : str_eq new_guid old_guid ≡ false) where
  event-find :
      (o : Option GuidChangeRow)
      → find url p ≡ o
      → (k : String)
      → map_row shared
          (if str_eq url k then some (seen now (conflict o old_guid new_guid now)) else find k p)
        ≡ map_row shared (find k (apply_observed (observed url old_guid new_guid now now) r))
  event-find o h k = elim (Bool-cases (str_eq url k)) [
    | inl e ↦
        rw (e, observed-find url old_guid new_guid now r k other, e)
          (ap some (
            conflict-shared old_guid new_guid now now o (find url r)
              (sym (ap (map_row shared) h) ∙ agree url)))
    | inr e ↦ rw (e, observed-find url old_guid new_guid now r k other, e) (agree k)
  ]

  kept-find :
      (row : GuidChangeRow)
      → find url p ≡ some row
      → row.old_guid ≡ old_guid
      → str_eq row.new_guid new_guid ≡ true
      → (k : String)
      → map_row shared
          (if str_eq url k then some (submitted old_guid new_guid now (some row)) else find k p)
        ≡ map_row shared (find k r)
  kept-find row h held same k = elim (Bool-cases (str_eq url k)) [
    | inl e ↦
        let here : find k p ≡ some row = sym (ap (λ x. find x p) ((eq_iff url k).0 e)) ∙ h in
        rw e (
          ap some (seen-shared old_guid new_guid now row held same)
          ∙ sym (ap (map_row shared) here)
          ∙ agree k)
    | inr e ↦ rw e (agree k)
  ]

  pending-find :
      (o : Option GuidChangeRow)
      → find url p ≡ o
      → IsHeldBy old_guid o
      → (k : String)
      → map_row shared (find k (by_existing url old_guid new_guid now p o).0)
        ≡ map_row shared (find k (apply_pending (by_existing url old_guid new_guid now p o).1 r))
  pending-find none h held k =
      ap (map_row shared) (by_existing-find url old_guid new_guid now p none k h)
      ∙ event-find none h k
  pending-find (some row) h held k =
      ap (map_row shared) (by_existing-find url old_guid new_guid now p (some row) k h)
      ∙ (elim (Bool-cases (str_eq row.new_guid new_guid)) [
        | inl same ↦ elim (Bool-cases (opt_eq row.decision (some "reject"))) [
          | inl refused ↦ rw (same, refused) (agree k)
          | inr undecided ↦ rw (undecided, same) (rw same at (kept-find row h held same k))
        ]
        | inr changed ↦ rw changed (rw changed at (event-find (some row) h k))
      ])

returned-find :
    (url guid : String) (now : ℤ) (p r : List (String × GuidChangeRow))
    → Agree p r
    → (k : String)
    → map_row shared (find k (remove url p))
      ≡ map_row shared (find k (apply_observed (observed url guid guid now now) r))
unfolding apply_observed delete_guid_change
returned-find url guid now p r agree k = rw eq_refl (elim (Bool-cases (str_eq url k)) [
  | inl e ↦ rw (find-remove url k p, find-remove url k r, e) refl
  | inr e ↦ rw (find-remove url k p, find-remove url k r, e) (agree k)
])

conflict-old_guid :
    (o : Option GuidChangeRow) (guid new_guid : String) (first : ℤ)
    → (conflict o guid new_guid first).old_guid ≡ guid
conflict-old_guid none guid new_guid first = refl
conflict-old_guid (some row) guid new_guid first = refl

decided-shared :
    (decision reason : String) (at_time : ℤ) (o q : Option GuidChangeRow)
    → map_row shared o ≡ map_row shared q
    → map_row shared (map_row (decided decision reason at_time) o)
      ≡ map_row shared (map_row (decided decision reason at_time) q)
decided-shared decision reason at_time none none h = refl
decided-shared decision reason at_time none (some b) h = cc
decided-shared decision reason at_time (some a) none h = cc
decided-shared decision reason at_time (some a) (some b) h = ground arith

decided-IsHeldBy :
    (decision reason guid : String) (at_time : ℤ) (o : Option GuidChangeRow)
    → IsHeldBy guid o
    → IsHeldBy guid (map_row (decided decision reason at_time) o)
decided-IsHeldBy decision reason guid at_time none h = h
decided-IsHeldBy decision reason guid at_time (some a) h = h

module _ (held : String → String) where
  decide_row-IsInStep :
      (p r : List (String × GuidChangeRow)) (decision reason : String) (now : ℤ)
      (found : Option (String × GuidChangeRow))
      → IsInStep held (p, r)
      → IsInStep held (decided_for r (decide_row p decision reason now found))
  unfolding apply_decided set_guid_change_decision
  decide_row-IsInStep p r decision reason now none h = h
  decide_row-IsInStep p r decision reason now (some (u, row)) h = (
    λ k. elim (Bool-cases (str_eq u k)) [
      | inl e ↦
          rw
            (
              find-update (decided decision reason now) u k p,
              find-update (decided decision reason now) u k r,
              e,
            )
            (decided-shared decision reason now (find k p) (find k r) (h.0 k))
      | inr e ↦
          rw
            (
              find-update (decided decision reason now) u k p,
              find-update (decided decision reason now) u k r,
              e,
            )
            (h.0 k)
    ],
    λ k. elim (Bool-cases (str_eq u k)) [
      | inl e ↦
          rw (find-update (decided decision reason now) u k p, e)
            (decided-IsHeldBy decision reason (held k) now (find k p) (h.1 k))
      | inr e ↦ rw (find-update (decided decision reason now) u k p, e) (h.1 k)
    ],
  )

  pending-IsInStep :
      (p r : List (String × GuidChangeRow)) (url guid : String) (now : ℤ)
      → str_eq guid (held url) ≡ false
      → IsInStep held (p, r)
      → IsInStep held
          (submitted_to r (record_guid_change_pending_for_ingest url (held url) guid now p))
  unfolding record_guid_change_pending_for_ingest get_guid_change
  pending-IsInStep p r url guid now other h = (
    pending-find url (held url) guid now p r h.0 other (find url p) refl (h.1 url),
    λ k.
        rw (by_existing-find url (held url) guid now p (find url p) k refl)
          (elim (Bool-cases (not (is_rejected guid (find url p)) && str_eq url k)) [
            | inl e ↦ rw e (
                conflict-old_guid (find url p) (held url) guid _
                ∙ ap held ((eq_iff url k).0 (ground arith)))
            | inr e ↦ rw e (h.1 k)
          ]),
  )

  returned-IsInStep :
      (p r : List (String × GuidChangeRow)) (url : String) (now : ℤ)
      → IsInStep held (p, r)
      → IsInStep held (returned r (record_guid_change_return_for_ingest url (held url) now p))
  unfolding record_guid_change_return_for_ingest delete_guid_change
  returned-IsInStep p r url now h = elim (Bool-cases (is_some (get_guid_change p url))) [
    | inl e ↦ rw e (
      returned-find url (held url) now p r h.0,
      λ k.
          rw (find-remove url k p)
            (elim (Bool-cases (str_eq url k)) [ inl s ↦ rw s tt | inr s ↦ rw s (h.1 k) ]),
    )
    | inr e ↦ rw e h
  ]

  handle-IsInStep :
      (p r : List (String × GuidChangeRow)) (guid decision reason : String) (now : ℤ)
      → IsInStep held (p, r)
      → IsInStep held (decided_for r (handle_guid_change_decision p guid decision reason now))
  unfolding handle_guid_change_decision
  handle-IsInStep p r guid decision reason now h =
      elim (Bool-cases (
        is_empty (trim reason)
        || (not (str_eq decision "approve") && not (str_eq decision "reject")))) [
          | inl e ↦ rw e h
          | inr e ↦ rw e (
              decide_row-IsInStep p r decision (trim reason) now
                (get_guid_change_for_old_guid p guid) h)
        ]

  step-IsInStep :
      (q : Request) (both : List (String × GuidChangeRow) × List (String × GuidChangeRow))
      → IsInStep held both
      → IsInStep held (step held q both)
  unfolding step
  step-IsInStep (submits url guid now) (p, r) h = elim (Bool-cases (str_eq guid (held url))) [
    | inl e ↦ rw e (rw ((eq_iff guid (held url)).0 e) (returned-IsInStep p r url now h))
    | inr e ↦ rw e (pending-IsInStep p r url guid now e h)
  ]
  step-IsInStep (decides guid decision reason now) (p, r) h =
      handle-IsInStep p r guid decision reason now h

  -- Whatever submissions and decisions come, in whatever order, a replica that applies the signed events
  -- holds the same rows as the primary but for `last_seen`, and every row names as its old GUID the
  -- record at its URL, if it was so before. The record at each URL stays the same meanwhile.
  pub run-IsInStep :
      (requests : List Request)
      (both : List (String × GuidChangeRow) × List (String × GuidChangeRow))
      → IsInStep held both
      → IsInStep held (run held requests both)
  unfolding run
  run-IsInStep [] both h = h
  run-IsInStep (q ∷ rest) both h = run-IsInStep rest (step held q both) (step-IsInStep q both h)
