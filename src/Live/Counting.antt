-- ===== src/Live/Counting.antt =====
-- Counts of GUIDs in the lists of `select_live_items` (src/live.rs).
use stophammer.Common.{
  ℕ, zero, suc, ◌+◌, ◌≤◌, ◌≡◌, refl, List, [], ◌∷◌, ◌++◌, String, str_eq, eq_iff, arith, ltb,
  length, take, contains, select, Bool-cases, inl, inr, if◌then◌else◌,
}
use stophammer.Live.Items.{LiveItem, insert_newest, newest_first, not_older}

abbrev pub guids : List LiveItem → List String
guids [] = []
guids (item ∷ rest) = item.live_item_guid ∷ guids rest

unfoldable pub occ : String → List String → ℕ
occ k [] = 0
occ k (x ∷ xs) = (if str_eq x k then 1 else 0) + occ k xs

-- No text occurs twice.
abbrev pub IsDistinct : List String → Type 0
IsDistinct l = (k : String) → occ k l ≤ 1

pub contains-occ : (k : String) (l : List String) → contains k l ≡ ltb 0 (occ k l)
unfolding contains occ
contains-occ k [] = refl
contains-occ k (x ∷ xs) = ground (arith, contains-occ k xs)

pub occ-append : (k : String) (l m : List String) → occ k (l ++ m) ≡ occ k l + occ k m
unfolding occ
occ-append k [] m = omega arith
occ-append k (x ∷ l) m = omega (arith, occ-append k l m)

pub occ-take : (k : String) (n : ℕ) (l : List String) → occ k (take n l) ≤ occ k l
unfolding occ
occ-take k zero l = omega arith
occ-take k (suc n) [] = omega arith
occ-take k (suc n) (x ∷ l) = omega (arith, occ-take k n l)

occ-insert_newest :
    (k : String) (a : LiveItem) (l : List LiveItem)
    → occ k (guids (insert_newest a l)) ≡ occ k (guids (a ∷ l))
unfolding insert_newest occ
occ-insert_newest k a [] = refl
occ-insert_newest k a (b ∷ rest) = elim (Bool-cases (not_older a.start_at b.start_at)) [
  | inl e ↦ rw e refl
  | inr e ↦ rw e (omega (arith, occ-insert_newest k a rest))
]

pub occ-newest_first :
    (k : String) (l : List LiveItem) → occ k (guids (newest_first l)) ≡ occ k (guids l)
unfolding newest_first occ
occ-newest_first k [] = refl
occ-newest_first k (a ∷ rest) =
    omega (arith, occ-insert_newest k a (newest_first rest), occ-newest_first k rest)

-- One more GUID to keep selects as many more items as carry it.
select-cons :
    (k : String) (ks : List String) (l : List LiveItem)
    → occ k ks ≡ 0
    → length (select (λ item. contains item.live_item_guid (k ∷ ks)) l)
      ≡ occ k (guids l) + length (select (λ item. contains item.live_item_guid ks) l)
unfolding select contains occ
select-cons k ks [] h = omega arith
select-cons k ks (x ∷ l) h = ground (
  arith,
  select-cons k ks l h,
  eq_iff k x.live_item_guid,
  eq_iff x.live_item_guid k,
  contains-occ x.live_item_guid ks,
  contains-occ k ks,
)

none_selected :
    (l : List LiveItem) → length (select (λ item. contains item.live_item_guid []) l) ≡ 0
unfolding select contains
none_selected [] = refl
none_selected (x ∷ l) = none_selected l

pub occ_self : (k : String) (ks : List String) → occ k (k ∷ ks) ≡ suc (occ k ks)
unfolding occ
occ_self k ks = ground (arith, eq_iff k k)

pub occ-le-cons : (j k : String) (ks : List String) → occ j ks ≤ occ j (k ∷ ks)
unfolding occ
occ-le-cons j k ks = omega arith

-- Where the GUIDs of the items are distinct and hold every GUID to keep, no oftener than that, as
-- many items are selected as there are GUIDs to keep.
pub length-select :
    (ks : List String) (l : List LiveItem)
    → IsDistinct (guids l)
    → ((k : String) → occ k ks ≤ occ k (guids l))
    → length (select (λ item. contains item.live_item_guid ks) l) ≡ length ks
length-select [] l d h = none_selected l
length-select (k ∷ ks) l d h =
    let once : (occ k ks ≡ 0) × (occ k (guids l) ≡ 1) =
      (omega (arith, occ_self k ks, d k, h k), omega (arith, occ_self k ks, d k, h k)) in
    let rest = length-select ks l d (λ j. omega (arith, occ-le-cons j k ks, h j)) in
    omega (arith, select-cons k ks l once.0, once.1, rest)
