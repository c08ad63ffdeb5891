-- ===== src/Index/Loads.antt =====
-- What the queries of src/db.rs do with the rows of a feed: they keep agreement in the compared fields,
-- and reading a second time changes nothing.
use stophammer.Common.{
  ◌≡◌, refl, ap, ◌∙◌, Option, none, some, List, [], ◌∷◌, String, str_eq, map, All, Bool-cases, inl,
  inr,
}
use stophammer.Common.Cells.{Cell, opt_text}
use stophammer.Common.Sorting.{
  sort_by, sort_by-IsSortedBy, sort_by_sorted, map-sort_by, All-sort_by,
}
use stophammer.Index.Rows.{FeedPaymentRoute, FeedListValueRaw}
use stophammer.Index.Compare.{feed_route_fields, list_value_fields}
use stophammer.Index.Store.{nullif_empty, feed_route_load, list_value_load}

pub sort_by-again {ℓ} :
    {A : Type ℓ} (order fields : A → List Cell) (xs : List A)
    → map fields (sort_by order (sort_by order xs)) ≡ map fields (sort_by order xs)
sort_by-again order fields xs =
    ap (map fields) (sort_by_sorted order (sort_by order xs) (sort_by-IsSortedBy order xs))

module _ {ℓ} {A : Type ℓ} (fields : A → List Cell) (load : A → A)
    (shown : (a b : A) → fields a ≡ fields b → fields (load a) ≡ fields (load b))
    (again : (a : A) → fields (load (load a)) ≡ fields (load a)) where
  pub map-load-fields :
      (xs ys : List A)
      → map fields xs ≡ map fields ys
      → map fields (map load xs) ≡ map fields (map load ys)
  map-load-fields [] [] e = refl
  map-load-fields [] (b ∷ ys) e = cc
  map-load-fields (a ∷ xs) [] e = cc
  map-load-fields (a ∷ xs) (b ∷ ys) e =
      let head = shown a b (cc) in let tail = map-load-fields xs ys (cc) in cc

  pub map-load-again :
      (xs : List A) → map fields (map load (map load xs)) ≡ map fields (map load xs)
  map-load-again [] = refl
  map-load-again (a ∷ xs) = cc (again a, map-load-again xs)

  loaded-again :
      (xs : List A)
      → All (λ a. fields (load a) ≡ fields a) xs
      → map fields (map load xs) ≡ map fields xs
  loaded-again [] h = refl
  loaded-again (a ∷ xs) h = cc (h.0, loaded-again xs h.1)

  All-map-load : (xs : List A) → All (λ a. fields (load a) ≡ fields a) (map load xs)
  All-map-load [] = tt
  All-map-load (a ∷ xs) = (again a, All-map-load xs)

  pub sort_load-again :
      (order : A → List Cell)
      → ((a b : A) → fields a ≡ fields b → order a ≡ order b)
      → (xs : List A)
      → map fields (sort_by order (map load (sort_by order (map load xs))))
        ≡ map fields (sort_by order (map load xs))
  sort_load-again order ordered xs =
      map-sort_by order fields ordered (map load (sort_by order (map load xs)))
        (sort_by order (map load xs))
        (loaded-again (sort_by order (map load xs))
          (All-sort_by order _ (map load xs) (All-map-load xs)))
      ∙ sort_by-again order fields (map load xs)

nullif-shown :
    (a b : Option String)
    → opt_text a ≡ opt_text b
    → opt_text (nullif_empty a) ≡ opt_text (nullif_empty b)
nullif-shown none none e = refl
nullif-shown none (some t) e = cc
nullif-shown (some s) none e = cc
nullif-shown (some s) (some t) e = cc

nullif-again : (a : Option String) → nullif_empty (nullif_empty a) ≡ nullif_empty a
nullif-again none = refl
nullif-again (some s) = elim (Bool-cases (str_eq s "")) [
  | inl e ↦ rw e refl
  | inr e ↦ rw (e, e) refl
]

pub feed_route-shown :
    (a b : FeedPaymentRoute)
    → feed_route_fields a ≡ feed_route_fields b
    → feed_route_fields (feed_route_load a) ≡ feed_route_fields (feed_route_load b)
feed_route-shown a b e =
    let keys = nullif-shown a.custom_key b.custom_key (cc) in
    let values = nullif-shown a.custom_value b.custom_value (cc) in cc

pub feed_route-again :
    (a : FeedPaymentRoute)
    → feed_route_fields (feed_route_load (feed_route_load a))
      ≡ feed_route_fields (feed_route_load a)
feed_route-again a = cc (nullif-again a.custom_key, nullif-again a.custom_value)

pub list_value-shown :
    (a b : FeedListValueRaw)
    → list_value_fields a ≡ list_value_fields b
    → list_value_fields (list_value_load a) ≡ list_value_fields (list_value_load b)
list_value-shown a b e =
    let keys = nullif-shown a.custom_key b.custom_key (cc) in
    let values = nullif-shown a.custom_value b.custom_value (cc) in cc

pub list_value-again :
    (a : FeedListValueRaw)
    → list_value_fields (list_value_load (list_value_load a))
      ≡ list_value_fields (list_value_load a)
list_value-again a = cc (nullif-again a.custom_key, nullif-again a.custom_value)
