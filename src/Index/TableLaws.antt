-- ===== src/Index/TableLaws.antt =====
-- A list of rows of a feed on the primary and on a replica, before and after one submission (src/db.rs).
use stophammer.Common.{
  ◌≡◌, refl, sym, ap, ◌∙◌, Bool, true, false, List, [], ◌∷◌, ◌++◌, String, str_eq, eq_iff, map,
  select, All, Bool-cases, inl, inr, arith, if◌then◌else◌,
}
use mathlib.Core.List.{append-nil}
use stophammer.Common.Cells.{Cell, cells_eq_iff}
use stophammer.Index.Compare.{any_pair, rows_changed}
use stophammer.Index.Store.{rows_of, without}

-- No change means that the lists agree in all the fields that are compared.
pub rows_changed_sound {ℓ} :
    {A : Type ℓ} (fields : A → List Cell) (existing new : List A)
    → rows_changed fields existing new ≡ false
    → map fields existing ≡ map fields new
unfolding any_pair
rows_changed_sound fields [] [] h = refl
rows_changed_sound fields [] (y ∷ ys) h = ground arith
rows_changed_sound fields (x ∷ xs) [] h = ground arith
rows_changed_sound fields (x ∷ xs) (y ∷ ys) h =
    let head : fields x ≡ fields y = (cells_eq_iff (fields x) (fields y)).0 (ground arith) in
    let tail = rows_changed_sound fields xs ys (ground arith) in cc

module _ {ℓ} {A : Type ℓ} (feed_guid : A → String) where
  abbrev pub IsOf : String → List A → Type 0
  IsOf guid rows = All (λ r. str_eq (feed_guid r) guid ≡ true) rows

  rows_of-append :
      (k : String) (xs ys : List A)
      → rows_of feed_guid k (xs ++ ys) ≡ rows_of feed_guid k xs ++ rows_of feed_guid k ys
  unfolding rows_of select
  rows_of-append k [] ys = refl
  rows_of-append k (x ∷ xs) ys = ground (arith, rows_of-append k xs ys)

  rows_of-without_self :
      (k : String) (xs : List A) → rows_of feed_guid k (without feed_guid k xs) ≡ []
  unfolding rows_of without select
  rows_of-without_self k [] = refl
  rows_of-without_self k (x ∷ xs) = ground (arith, rows_of-without_self k xs)

  rows_of-without_other :
      (g k : String) (xs : List A)
      → str_eq g k ≡ false
      → rows_of feed_guid k (without feed_guid g xs) ≡ rows_of feed_guid k xs
  unfolding rows_of without select
  rows_of-without_other g k [] h = refl
  rows_of-without_other g k (x ∷ xs) h = ground (
    arith,
    rows_of-without_other g k xs h,
    eq_iff (feed_guid x) g,
    eq_iff (feed_guid x) k,
    eq_iff g k,
  )

  rows_of-own : (g : String) (xs : List A) → IsOf g xs → rows_of feed_guid g xs ≡ xs
  unfolding rows_of select
  rows_of-own g [] h = refl
  rows_of-own g (x ∷ xs) h = rw h.0 (ap (λ l. x ∷ l) (rows_of-own g xs h.1))

  rows_of-foreign :
      (g k : String) (xs : List A) → IsOf g xs → str_eq g k ≡ false → rows_of feed_guid k xs ≡ []
  unfolding rows_of select
  rows_of-foreign g k [] h d = refl
  rows_of-foreign g k (x ∷ xs) h d = ground (
    arith,
    rows_of-foreign g k xs h.1 d,
    eq_iff (feed_guid x) g,
    eq_iff (feed_guid x) k,
    eq_iff g k,
  )

  -- The rows of each feed after DELETE and INSERT.
  pub rows_of-replaced :
      (g k : String) (rows new : List A)
      → IsOf g new
      → rows_of feed_guid k (without feed_guid g rows ++ new)
        ≡ (if str_eq g k then new else rows_of feed_guid k rows)
  rows_of-replaced g k rows new own =
      rows_of-append k (without feed_guid g rows) new ∙ (elim (Bool-cases (str_eq g k)) [
        | inl e ↦
            rw e
              (rw (← (eq_iff g k).0 e) (rw (rows_of-without_self g rows) (rows_of-own g new own)))
        | inr e ↦
            rw e
              (rw (rows_of-without_other g k rows e, rows_of-foreign g k new own e) (append-nil _))
      ])

-- One table. `load` is what the query does with the rows of the feed: reading and ORDER BY.
module _ {ℓ} {A : Type ℓ} (feed_guid : A → String) (fields : A → List Cell) (load : List A → List A)
    (load-fields : (xs ys : List A)
      → map fields xs ≡ map fields ys
      → map fields (load xs) ≡ map fields (load ys))
    (load-load : (xs : List A) → map fields (load (load xs)) ≡ map fields (load xs)) where
  abbrev pub view : List A → String → List (List Cell)
  view rows k = map fields (load (rows_of feed_guid k rows))

  pub view-follows :
      (g : String) (p r new : List A) (test : Bool)
      → IsOf feed_guid g new
      → (test ≡ false → view p g ≡ map fields new)
      → ((k : String) → view p k ≡ view r k)
      → (k : String)
      → view (without feed_guid g p ++ new) k
        ≡ view (if test then without feed_guid g r ++ new else r) k
  view-follows g p r new true own quiet agree k =
      rw (rows_of-replaced feed_guid g k p new own, rows_of-replaced feed_guid g k r new own)
        (elim (Bool-cases (str_eq g k)) [ inl e ↦ rw e refl | inr e ↦ rw e (agree k) ])
  view-follows g p r new false own quiet agree k =
      rw (rows_of-replaced feed_guid g k p new own) (elim (Bool-cases (str_eq g k)) [
        | inl e ↦ rw e (
            sym (load-fields (load (rows_of feed_guid g p)) new (quiet refl))
            ∙ load-load (rows_of feed_guid g p)
            ∙ agree g
            ∙ ap (view r) ((eq_iff g k).0 e))
        | inr e ↦ rw e (agree k)
      ])
