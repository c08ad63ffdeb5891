-- ===== src/GuidChange/Stored.antt =====
-- What a submission with another GUID leaves in `feed_guid_changes` (src/api.rs).
use stophammer.Common.{
  ◌≡◌, refl, ap, ◌∙◌, false, not, ◌&&◌, Option, none, some, List, [], String, str_eq, opt_eq,
  eq_iff, eq_refl, if◌then◌else◌, arith, Bool-cases, inl, inr,
}
use stophammer.Common.Int.{ℤ}
use stophammer.Common.Keyed.{find, find-put, find-update, map_row}
use stophammer.GuidChange.Table.{
  GuidChangeRow, conflict, seen, upsert_guid_change, touch_guid_change_last_seen, get_guid_change,
}
use stophammer.GuidChange.Record.{
  rejected, pending, is_rejected, is_new_or_changed, seen_first, by_existing,
  record_guid_change_pending_for_ingest,
}

-- The row after a submission that is not rejected.
abbrev pub submitted : String → String → ℤ → Option GuidChangeRow → GuidChangeRow
submitted old_guid new_guid now o =
    seen now (
      conflict o old_guid new_guid (if is_new_or_changed new_guid o then now else seen_first now o))

module _ (source_url old_guid new_guid : String) (now : ℤ) where
  written-find :
      (rows : List (String × GuidChangeRow)) (first : ℤ) (k : String)
      → find k (
          touch_guid_change_last_seen
            (upsert_guid_change rows source_url old_guid new_guid first)
            source_url
            now)
        ≡ (if str_eq source_url k
            then some (seen now (conflict (find source_url rows) old_guid new_guid first))
            else find k rows)
  unfolding touch_guid_change_last_seen upsert_guid_change
  written-find rows first k =
      find-update (seen now) source_url k _
      ∙ ap (λ o. if str_eq source_url k then map_row (seen now) o else o)
          (find-put source_url k _ rows)
      ∙ ground arith

  pub by_existing-find :
      (rows : List (String × GuidChangeRow)) (o : Option GuidChangeRow) (k : String)
      → find source_url rows ≡ o
      → find k (by_existing source_url old_guid new_guid now rows o).0 ≡ (
          if not (is_rejected new_guid o) && str_eq source_url k
          then some (submitted old_guid new_guid now o)
          else find k rows)
  by_existing-find rows o k h = elim (Bool-cases (is_rejected new_guid o)) [
    | inl e ↦ rw e (ground arith)
    | inr e ↦ rw e (written-find rows _ k ∙ rw h (ground arith))
  ]

  submitted-rejected :
      (later : ℤ) (o : Option GuidChangeRow)
      → is_rejected new_guid o ≡ false
      → is_rejected new_guid (some (submitted old_guid new_guid now o)) ≡ false
  unfolding opt_eq
  submitted-rejected later none h = ground (arith, eq_iff new_guid new_guid)
  submitted-rejected later (some row) h = elim (Bool-cases (str_eq row.new_guid new_guid)) [
    | inl e ↦ rw (e, eq_refl) (rw e at h)
    | inr e ↦ rw (e, eq_refl) refl
  ]

  submitted-changed :
      (o : Option GuidChangeRow)
      → is_new_or_changed new_guid (some (submitted old_guid new_guid now o)) ≡ false
  submitted-changed none = rw eq_refl
  submitted-changed (some row) = rw eq_refl

  again_by_existing :
      (later : ℤ) (rows : List (String × GuidChangeRow)) (o : Option GuidChangeRow)
      → is_new_or_changed new_guid o ≡ false
      → (by_existing source_url old_guid new_guid later rows o).1
        ≡ (if is_rejected new_guid o then rejected else pending [])
  again_by_existing later rows o same = elim (Bool-cases (is_rejected new_guid o)) [
    | inl e ↦ rw e refl
    | inr e ↦ rw (e, same) refl
  ]

  twice :
      (later : ℤ) (rows : List (String × GuidChangeRow)) (o : Option GuidChangeRow)
      → find source_url rows ≡ o
      → (by_existing source_url old_guid new_guid later
          (by_existing source_url old_guid new_guid now rows o).0
          (find source_url (by_existing source_url old_guid new_guid now rows o).0)).1
        ≡ (if is_rejected new_guid o then rejected else pending [])
  twice later rows o h = elim (Bool-cases (is_rejected new_guid o)) [
    | inl e ↦ rw (e, h, e) refl
    | inr e ↦
        let found : find source_url (by_existing source_url old_guid new_guid now rows o).0
            ≡ some (submitted old_guid new_guid now o) =
          by_existing-find rows o source_url h ∙ rw (e, eq_refl) refl in
        rw (found, e)
          (again_by_existing later _ (some (submitted old_guid new_guid now o))
              (submitted-changed o)
            ∙ rw (submitted-rejected later o e) refl)
  ]

  -- A second submission of the same GUID signs no event, whatever the first one did and whenever it
  -- comes. It is rejected exactly where the first one is.
  pub record_guid_change_pending-again :
      (later : ℤ) (rows : List (String × GuidChangeRow))
      → (record_guid_change_pending_for_ingest source_url old_guid new_guid later
          (record_guid_change_pending_for_ingest source_url old_guid new_guid now rows).0).1
        ≡ (if is_rejected new_guid (get_guid_change rows source_url) then rejected else pending [])
  unfolding record_guid_change_pending_for_ingest get_guid_change
  record_guid_change_pending-again later rows = twice later rows (find source_url rows) refl
