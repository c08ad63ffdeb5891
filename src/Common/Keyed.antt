-- ===== src/Common/Keyed.antt =====
-- A table with a text key of its own in each row: `find` is a SELECT by the key, `put` an upsert on
-- it, `remove` a DELETE by it.
use stophammer.Common.{
  String, ◌≡◌, refl, Option, none, some, List, [], ◌∷◌, suc, length, is_some, arith, str_eq, eq_iff,
  if◌then◌else◌,
}

module _ {ℓ} {V : Type ℓ} where
  unfoldable pub find : String → List (String × V) → Option V
  find k [] = none
  find k ((j, v) ∷ m) = if str_eq j k then some v else find k m

  unfoldable pub put : String → V → List (String × V) → List (String × V)
  put k v [] = (k, v) ∷ []
  put k v ((j, w) ∷ m) = if str_eq j k then (j, v) ∷ m else (j, w) ∷ put k v m

  unfoldable pub remove : String → List (String × V) → List (String × V)
  remove k [] = []
  remove k ((j, v) ∷ m) = let rest = remove k m in if str_eq j k then rest else (j, v) ∷ rest

  pub find-put :
      (k j : String) (v : V) (m : List (String × V))
      → find j (put k v m) ≡ (if str_eq k j then some v else find j m)
  unfolding find put
  find-put k j v [] = refl
  find-put k j v ((i, w) ∷ m) = ground (arith, eq_iff k j, eq_iff i k, eq_iff i j, find-put k j v m)

  pub find-remove :
      (k j : String) (m : List (String × V))
      → find j (remove k m) ≡ (if str_eq k j then none else find j m)
  unfolding find remove
  find-remove k j [] = ground arith
  find-remove k j ((i, w) ∷ m) =
      ground (arith, eq_iff k j, eq_iff i k, eq_iff i j, find-remove k j m)

  abbrev pub map_row : (V → V) → Option V → Option V
  map_row f none = none
  map_row f (some v) = some (f v)

  -- An UPDATE of the rows with the key.
  unfoldable pub update : (V → V) → String → List (String × V) → List (String × V)
  update f k [] = []
  update f k ((j, v) ∷ m) = (j, if str_eq j k then f v else v) ∷ update f k m

  pub find-update :
      (f : V → V) (k j : String) (m : List (String × V))
      → find j (update f k m) ≡ (if str_eq k j then map_row f (find j m) else find j m)
  unfolding find update
  find-update f k j [] = ground arith
  find-update f k j ((i, w) ∷ m) =
      ground (arith, eq_iff k j, eq_iff i k, eq_iff i j, find-update f k j m)

  pub length-put :
      (k : String) (v : V) (m : List (String × V))
      → length (put k v m) ≡ (if is_some (find k m) then length m else suc (length m))
  unfolding put find
  length-put k v [] = refl
  length-put k v ((j, w) ∷ m) = ground (arith, length-put k v m)
