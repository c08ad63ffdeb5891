-- ===== src/Common/Sorting.antt =====
-- ORDER BY: a stable sort by a key of cells. And the first row of each key, as a loop over a set of seen
-- keys keeps it.
use stophammer.Common.{
  ◌≡◌, refl, sym, ap, ◌∙◌, Bool, true, false, ◌||◌, List, [], ◌∷◌, map, if◌then◌else◌, arith,
  Bool-cases, inl, inr, any, All,
}
use stophammer.Common.Cells.{Cell, cells_eq, cells_eq_iff, cells_lt, cells_lt_asym}

cells_eq_sym : (a b : List Cell) → cells_eq a b ≡ cells_eq b a
cells_eq_sym a b = elim (Bool-cases (cells_eq a b)) [
  | inl e ↦ e ∙ sym ((cells_eq_iff b a).1 (sym ((cells_eq_iff a b).0 e)))
  | inr e ↦ elim (Bool-cases (cells_eq b a)) [
    | inl f ↦ cc ((cells_eq_iff a b).1 (sym ((cells_eq_iff b a).0 f)))
    | inr f ↦ e ∙ sym f
  ]
]

module _ {ℓ} {A : Type ℓ} (key : A → List Cell) where
  unfoldable pub insert_by : A → List A → List A
  unfolding cells_lt
  insert_by x [] = x ∷ []
  insert_by x (y ∷ ys) =
      let rest = insert_by x ys in if cells_lt (key y) (key x) then y ∷ rest else x ∷ y ∷ ys

  unfoldable pub sort_by : List A → List A
  unfolding insert_by
  sort_by [] = []
  sort_by (x ∷ xs) = insert_by x (sort_by xs)

  -- No row stands before one with a lesser key.
  abbrev pub IsSortedBy : List A → Type 0
  IsSortedBy [] = Unit
  IsSortedBy (x ∷ []) = Unit
  IsSortedBy (x ∷ y ∷ ys) = (cells_lt (key y) (key x) ≡ false) × IsSortedBy (y ∷ ys)

  insert_by-IsSortedBy : (x : A) (ys : List A) → IsSortedBy ys → IsSortedBy (insert_by x ys)
  unfolding insert_by
  insert_by-IsSortedBy x [] s = tt
  insert_by-IsSortedBy x (y ∷ []) s = elim (Bool-cases (cells_lt (key y) (key x))) [
    | inl e ↦ rw e (cells_lt_asym (key y) (key x) e, tt)
    | inr e ↦ rw e (e, tt)
  ]
  insert_by-IsSortedBy x (y ∷ z ∷ zs) s = elim (Bool-cases (cells_lt (key y) (key x))) [
    | inl e ↦ rw e (elim (Bool-cases (cells_lt (key z) (key x))) [
      | inl f ↦ rw f (s.0, rw f at (insert_by-IsSortedBy x (z ∷ zs) s.1))
      | inr f ↦
          rw f (cells_lt_asym (key y) (key x) e, rw f at (insert_by-IsSortedBy x (z ∷ zs) s.1))
    ])
    | inr e ↦ rw e (e, s)
  ]

  pub sort_by-IsSortedBy : (xs : List A) → IsSortedBy (sort_by xs)
  unfolding sort_by
  sort_by-IsSortedBy [] = tt
  sort_by-IsSortedBy (x ∷ xs) = insert_by-IsSortedBy x (sort_by xs) (sort_by-IsSortedBy xs)

  pub sort_by_sorted : (xs : List A) → IsSortedBy xs → sort_by xs ≡ xs
  unfolding sort_by
  sort_by_sorted [] s = refl
  sort_by_sorted (x ∷ []) s = refl
  sort_by_sorted (x ∷ y ∷ ys) s = rw (sort_by_sorted (y ∷ ys) s.1, s.0) refl

  All-insert_by {κ} :
      (P : A → Type κ) (x : A) (xs : List A) → P x → All P xs → All P (insert_by x xs)
  unfolding insert_by
  All-insert_by P x [] h hs = (h, tt)
  All-insert_by P x (y ∷ ys) h hs = elim (Bool-cases (cells_lt (key y) (key x))) [
    | inl e ↦ rw e (hs.0, All-insert_by P x ys h hs.1)
    | inr e ↦ rw e (h, hs)
  ]

  pub All-sort_by {κ} : (P : A → Type κ) (xs : List A) → All P xs → All P (sort_by xs)
  unfolding sort_by
  All-sort_by P [] hs = tt
  All-sort_by P (x ∷ xs) hs = All-insert_by P x (sort_by xs) hs.0 (All-sort_by P xs hs.1)

  -- `if seen.insert(key) { deduped.push(row) }`, over the rows in their order.
  abbrev is_seen : A → List A → Bool
  is_seen x seen = any (λ y. cells_eq (key y) (key x)) seen

  unfoldable pub dedupe_from : List A → List A → List A
  dedupe_from seen [] = []
  dedupe_from seen (x ∷ xs) =
      let kept = x ∷ dedupe_from (x ∷ seen) xs in
      let rest = dedupe_from seen xs in if is_seen x seen then rest else kept

  unfoldable pub dedupe_by : List A → List A
  unfolding dedupe_from
  dedupe_by xs = dedupe_from [] xs

  dedupe_from_idem :
      (seen xs : List A) → dedupe_from seen (dedupe_from seen xs) ≡ dedupe_from seen xs
  unfolding dedupe_from
  dedupe_from_idem seen [] = refl
  dedupe_from_idem seen (x ∷ xs) = elim (Bool-cases (is_seen x seen)) [
    | inl e ↦ rw e (dedupe_from_idem seen xs)
    | inr e ↦ rw (e, e) (ap (λ l. x ∷ l) (dedupe_from_idem (x ∷ seen) xs))
  ]

  pub dedupe_by_idem : (xs : List A) → dedupe_by (dedupe_by xs) ≡ dedupe_by xs
  unfolding dedupe_by
  dedupe_by_idem xs = dedupe_from_idem [] xs

  -- No two rows have one key.
  abbrev pub IsDistinctBy : List A → Type 0
  IsDistinctBy [] = Unit
  IsDistinctBy (x ∷ xs) = (is_seen x xs ≡ false) × IsDistinctBy xs

  is_seen-insert_by : (x y : A) (ys : List A) → is_seen x (insert_by y ys) ≡ is_seen x (y ∷ ys)
  unfolding insert_by any
  is_seen-insert_by x y [] = refl
  is_seen-insert_by x y (z ∷ zs) = elim (Bool-cases (cells_lt (key z) (key y))) [
    | inl e ↦ rw e (ground (arith, is_seen-insert_by x y zs))
    | inr e ↦ rw e refl
  ]

  insert_by-IsDistinctBy :
      (x : A) (ys : List A) → is_seen x ys ≡ false → IsDistinctBy ys → IsDistinctBy (insert_by x ys)
  unfolding insert_by any
  insert_by-IsDistinctBy x [] n d = (refl, tt)
  insert_by-IsDistinctBy x (y ∷ ys) n d = elim (Bool-cases (cells_lt (key y) (key x))) [
    | inl e ↦ rw e (
      is_seen-insert_by y x ys ∙ ground (arith, cells_eq_sym (key x) (key y), d.0),
      insert_by-IsDistinctBy x ys (ground arith) d.1,
    )
    | inr e ↦ rw e (n, d)
  ]

  is_seen-sort_by : (x : A) (ys : List A) → is_seen x (sort_by ys) ≡ is_seen x ys
  unfolding sort_by any
  is_seen-sort_by x [] = refl
  is_seen-sort_by x (y ∷ ys) =
      is_seen-insert_by x y (sort_by ys)
      ∙ ap (λ b. cells_eq (key y) (key x) || b) (is_seen-sort_by x ys)

  pub sort_by-IsDistinctBy : (xs : List A) → IsDistinctBy xs → IsDistinctBy (sort_by xs)
  unfolding sort_by
  sort_by-IsDistinctBy [] d = tt
  sort_by-IsDistinctBy (x ∷ xs) d =
      insert_by-IsDistinctBy x (sort_by xs) (is_seen-sort_by x xs ∙ d.0)
        (sort_by-IsDistinctBy xs d.1)

  -- A kept row has a key that is neither seen nor that of another kept row.
  dedupe_from-new :
      (x : A) (seen xs : List A) → is_seen x seen ≡ true → is_seen x (dedupe_from seen xs) ≡ false
  unfolding dedupe_from any
  dedupe_from-new x seen [] h = refl
  dedupe_from-new x seen (y ∷ ys) h = elim (Bool-cases (is_seen y seen)) [
    | inl e ↦ rw e (dedupe_from-new x seen ys h)
    | inr e ↦ rw e (elim (Bool-cases (cells_eq (key y) (key x))) [
      | inl f ↦
          let same : is_seen y seen ≡ is_seen x seen =
            ap (λ k. any (λ z. cells_eq (key z) k) seen) ((cells_eq_iff (key y) (key x)).0 f) in
          cc (sym e ∙ same ∙ h)
      | inr f ↦ rw f (dedupe_from-new x (y ∷ seen) ys (rw f h))
    ])
  ]

  seen_self : (x : A) (seen : List A) → is_seen x (x ∷ seen) ≡ true
  unfolding any
  seen_self x seen = rw ((cells_eq_iff (key x) (key x)).1 refl) refl

  pub dedupe_from-IsDistinctBy : (seen xs : List A) → IsDistinctBy (dedupe_from seen xs)
  unfolding dedupe_from
  dedupe_from-IsDistinctBy seen [] = tt
  dedupe_from-IsDistinctBy seen (x ∷ xs) = elim (Bool-cases (is_seen x seen)) [
    | inl e ↦ rw e (dedupe_from-IsDistinctBy seen xs)
    | inr e ↦
        rw e (
          dedupe_from-new x (x ∷ seen) xs (seen_self x seen),
          dedupe_from-IsDistinctBy (x ∷ seen) xs,
        )
  ]

  fresh_tail :
      (x : A) (seen xs : List A)
      → is_seen x xs ≡ false
      → All (λ y. is_seen y seen ≡ false) xs
      → All (λ y. is_seen y (x ∷ seen) ≡ false) xs
  unfolding any
  fresh_tail x seen [] h hs = tt
  fresh_tail x seen (y ∷ ys) h hs =
      (ground (arith, cells_eq_sym (key x) (key y), hs.0), fresh_tail x seen ys (ground arith) hs.1)

  none_seen : (xs : List A) → All (λ x. is_seen x [] ≡ false) xs
  unfolding any
  none_seen [] = tt
  none_seen (x ∷ xs) = (refl, none_seen xs)

  dedupe_from_distinct :
      (seen xs : List A)
      → All (λ x. is_seen x seen ≡ false) xs
      → IsDistinctBy xs
      → dedupe_from seen xs ≡ xs
  unfolding dedupe_from any
  dedupe_from_distinct seen [] h d = refl
  dedupe_from_distinct seen (x ∷ xs) h d =
      rw h.0
        (ap (λ l. x ∷ l) (dedupe_from_distinct (x ∷ seen) xs (fresh_tail x seen xs d.0 h.1) d.1))

  pub dedupe_by_distinct : (xs : List A) → IsDistinctBy xs → dedupe_by xs ≡ xs
  unfolding dedupe_by any
  dedupe_by_distinct xs d = dedupe_from_distinct [] xs (none_seen xs) d

-- Two lists of rows that agree in what `c` shows of them are sorted to lists that do, if the key is a
-- part of that.
module _ {ℓ κ} {A : Type ℓ} {C : Type κ} (key : A → List Cell) (c : A → C)
    (shown : (a b : A) → c a ≡ c b → key a ≡ key b) where
  map-insert_by :
      (x y : A) (xs ys : List A)
      → c x ≡ c y
      → map c xs ≡ map c ys
      → map c (insert_by key x xs) ≡ map c (insert_by key y ys)
  unfolding insert_by
  map-insert_by x y [] [] h e = ap (λ z. z ∷ []) h
  map-insert_by x y [] (b ∷ ys) h e = cc
  map-insert_by x y (a ∷ xs) [] h e = cc
  map-insert_by x y (a ∷ xs) (b ∷ ys) h e =
      let head : c a ≡ c b = cc in
      let tail : map c xs ≡ map c ys = cc in
      let rest = map-insert_by x y xs ys h tail in
      rw (shown a b head, shown x y h)
        (elim (Bool-cases (cells_lt (key b) (key y))) [ inl f ↦ rw f (cc) | inr f ↦ rw f (cc) ])

  pub map-sort_by :
      (xs ys : List A) → map c xs ≡ map c ys → map c (sort_by key xs) ≡ map c (sort_by key ys)
  unfolding sort_by
  map-sort_by [] [] e = refl
  map-sort_by [] (b ∷ ys) e = cc
  map-sort_by (a ∷ xs) [] e = cc
  map-sort_by (a ∷ xs) (b ∷ ys) e =
      map-insert_by a b (sort_by key xs) (sort_by key ys) (cc) (map-sort_by xs ys (cc))
