-- ===== src/Live/Selection.antt =====
-- What `select_live_items` of src/live.rs keeps and what it reports.
use stophammer.Common.{
  ℕ, suc, ◌+◌, ◌-◌, ◌≤◌, ◌<◌, ◌≡◌, refl, Bool, true, false, not, ◌||◌, List, [], ◌∷◌, ◌++◌, String,
  eq_iff, arith, length, length-append, contains, select, All, All-select, select-select,
  Subsequence, end, keep, skip, Subsequence-trans, Subsequence-select, Bool-cases, inl, inr,
  if◌then◌else◌,
}
use stophammer.Live.Items.{
  LiveItem, max_active_live_rows, max_ended_live_rows, is_banned_live_item, is_known_status,
  is_ended, known_status, deduped, survivors, active_guids, newest_first, insert_newest,
  ended_guids, select_live_items,
}
use stophammer.Live.Counting.{
  guids, occ, IsDistinct, contains-occ, occ-append, occ-newest_first, length-select, occ_self,
  occ-le-cons,
}

abbrev IsKnown : LiveItem → Type 0
IsKnown item = is_known_status item ≡ true

abbrev IsAllowed : LiveItem → Type 0
IsAllowed item = is_banned_live_item item ≡ false

known_status-count :
    (l : List LiveItem) → length (known_status l).0 + length (known_status l).1 ≡ length l
unfolding known_status
known_status-count [] = omega arith
known_status-count (x ∷ l) = ground (arith, known_status-count l)

known_status-IsKnown : (l : List LiveItem) → All IsKnown (known_status l).0
unfolding known_status
known_status-IsKnown [] = tt
known_status-IsKnown (x ∷ l) = elim (Bool-cases (is_known_status x)) [
  | inl e ↦ rw e (e, known_status-IsKnown l)
  | inr e ↦ rw e (known_status-IsKnown l)
]

deduped-count :
    (seen : List String) (l : List LiveItem)
    → length (deduped seen l).0 + length (deduped seen l).1 ≡ length l
unfolding deduped
deduped-count seen [] = omega arith
deduped-count seen (x ∷ l) =
    ground (arith, deduped-count seen l, deduped-count (x.live_item_guid ∷ seen) l)

deduped-All :
    (P : LiveItem → Type 0) (seen : List String) (l : List LiveItem)
    → All P l
    → All P (deduped seen l).0
unfolding deduped
deduped-All P seen [] h = tt
deduped-All P seen (x ∷ l) h = elim (Bool-cases (contains x.live_item_guid seen)) [
  | inl e ↦ rw e (deduped-All P seen l h.1)
  | inr e ↦ rw e (h.0, deduped-All P (x.live_item_guid ∷ seen) l h.1)
]

-- A GUID occurs once after the second step, and not at all if it was seen before.
deduped-once :
    (k : String) (seen : List String) (l : List LiveItem)
    → occ k (guids (deduped seen l).0) ≤ (if contains k seen then 0 else 1)
unfolding deduped occ contains
deduped-once k seen [] = omega arith
deduped-once k seen (x ∷ l) = elim (Bool-cases (contains x.live_item_guid seen)) [
  | inl e ↦ rw e (deduped-once k seen l)
  | inr e ↦
      rw e
        (ground (arith, deduped-once k (x.live_item_guid ∷ seen) l, eq_iff x.live_item_guid k, e))
]

survivors-count : (l : List LiveItem) → length (survivors l).0 + length (survivors l).1 ≡ length l
unfolding survivors
survivors-count [] = omega arith
survivors-count (x ∷ l) = ground (arith, survivors-count l)

survivors-All : (P : LiveItem → Type 0) (l : List LiveItem) → All P l → All P (survivors l).0
unfolding survivors
survivors-All P [] h = tt
survivors-All P (x ∷ l) h = elim (Bool-cases (is_banned_live_item x)) [
  | inl e ↦ rw e (survivors-All P l h.1)
  | inr e ↦ rw e (h.0, survivors-All P l h.1)
]

survivors-IsAllowed : (l : List LiveItem) → All IsAllowed (survivors l).0
unfolding survivors
survivors-IsAllowed [] = tt
survivors-IsAllowed (x ∷ l) = elim (Bool-cases (is_banned_live_item x)) [
  | inl e ↦ rw e (survivors-IsAllowed l)
  | inr e ↦ rw e (e, survivors-IsAllowed l)
]

survivors-occ : (k : String) (l : List LiveItem) → occ k (guids (survivors l).0) ≤ occ k (guids l)
unfolding survivors occ
survivors-occ k [] = omega arith
survivors-occ k (x ∷ l) = ground (arith, survivors-occ k l)

known_status-Subsequence : (l : List LiveItem) → Subsequence (known_status l).0 l
unfolding known_status
known_status-Subsequence [] = end
known_status-Subsequence (x ∷ l) = elim (Bool-cases (is_known_status x)) [
  | inl e ↦ rw e (keep (known_status-Subsequence l))
  | inr e ↦ rw e (skip (known_status-Subsequence l))
]

deduped-Subsequence : (seen : List String) (l : List LiveItem) → Subsequence (deduped seen l).0 l
unfolding deduped
deduped-Subsequence seen [] = end
deduped-Subsequence seen (x ∷ l) = elim (Bool-cases (contains x.live_item_guid seen)) [
  | inl e ↦ rw e (skip (deduped-Subsequence seen l))
  | inr e ↦ rw e (keep (deduped-Subsequence (x.live_item_guid ∷ seen) l))
]

survivors-Subsequence : (l : List LiveItem) → Subsequence (survivors l).0 l
unfolding survivors
survivors-Subsequence [] = end
survivors-Subsequence (x ∷ l) = elim (Bool-cases (is_banned_live_item x)) [
  | inl e ↦ rw e (skip (survivors-Subsequence l))
  | inr e ↦ rw e (keep (survivors-Subsequence l))
]

abbrev is_active : LiveItem → Bool
is_active item = not (is_ended item)

active_guids-count :
    (n : ℕ) (l : List LiveItem)
    → length (active_guids n l).0 + length (active_guids n l).1 ≡ length (select is_active l)
unfolding active_guids select
active_guids-count n [] = omega arith
active_guids-count n (x ∷ l) = ground (arith, active_guids-count n l, active_guids-count (n + 1) l)

active_guids-le :
    (n : ℕ) (l : List LiveItem)
    → n ≤ max_active_live_rows
    → n + length (active_guids n l).0 ≤ max_active_live_rows
unfolding active_guids
active_guids-le n [] h = omega arith
active_guids-le n (x ∷ l) h = ground (arith, active_guids-le n l h, active_guids-le (n + 1) l)

active_guids-occ :
    (k : String) (n : ℕ) (l : List LiveItem)
    → occ k (active_guids n l).0 ≤ occ k (guids (select is_active l))
unfolding active_guids select occ
active_guids-occ k n [] = omega arith
active_guids-occ k n (x ∷ l) = ground (arith, active_guids-occ k n l, active_guids-occ k (n + 1) l)

ended_guids-count :
    (i : ℕ) (l : List LiveItem) → length (ended_guids i l).0 + length (ended_guids i l).1 ≡ length l
unfolding ended_guids
ended_guids-count i [] = omega arith
ended_guids-count i (x ∷ l) = ground (arith, ended_guids-count (i + 1) l)

ended_guids-le : (i : ℕ) (l : List LiveItem) → length (ended_guids i l).0 ≤ max_ended_live_rows - i
unfolding ended_guids
ended_guids-le i [] = omega arith
ended_guids-le i (x ∷ l) = ground (arith, ended_guids-le (i + 1) l)

ended_guids-occ :
    (k : String) (i : ℕ) (l : List LiveItem) → occ k (ended_guids i l).0 ≤ occ k (guids l)
unfolding ended_guids occ
ended_guids-occ k i [] = omega arith
ended_guids-occ k i (x ∷ l) = ground (arith, ended_guids-occ k (i + 1) l)

occ-split :
    (k : String) (l : List LiveItem)
    → occ k (guids (select is_active l)) + occ k (guids (select is_ended l)) ≡ occ k (guids l)
unfolding select occ
occ-split k [] = omega arith
occ-split k (x ∷ l) = ground (arith, occ-split k l)

length-split :
    (l : List LiveItem) → length (select is_active l) + length (select is_ended l) ≡ length l
unfolding select
length-split [] = omega arith
length-split (x ∷ l) = ground (arith, length-split l)

length-insert_newest :
    (a : LiveItem) (l : List LiveItem) → length (insert_newest a l) ≡ suc (length l)
unfolding insert_newest
length-insert_newest a [] = refl
length-insert_newest a (b ∷ l) = ground (arith, length-insert_newest a l)

length-newest_first : (l : List LiveItem) → length (newest_first l) ≡ length l
unfolding newest_first
length-newest_first [] = refl
length-newest_first (a ∷ l) =
    omega (arith, length-insert_newest a (newest_first l), length-newest_first l)

-- Two lists of GUIDs select the same items where they agree on the GUIDs of the items.
select-agree :
    (ks ms : List String) (l : List LiveItem)
    → ((k : String) → 0 < occ k (guids l) → occ k ks ≡ occ k ms)
    → select (λ item. contains item.live_item_guid ks) l
      ≡ select (λ item. contains item.live_item_guid ms) l
unfolding select
select-agree ks ms [] h = refl
select-agree ks ms (x ∷ l) h =
    let same : occ x.live_item_guid ks ≡ occ x.live_item_guid ms =
      h x.live_item_guid (omega (arith, occ_self x.live_item_guid (guids l))) in
    let rest =
      select-agree ks ms l
        λ k p. h k (omega (arith, p, occ-le-cons k x.live_item_guid (guids l))) in
    ground (arith, rest, same, contains-occ x.live_item_guid ks, contains-occ x.live_item_guid ms)

contains-append :
    (k : String) (ks ms : List String) → contains k (ks ++ ms) ≡ (contains k ks || contains k ms)
unfolding contains
contains-append k [] ms = refl
contains-append k (x ∷ ks) ms = ground (arith, contains-append k ks ms)

occ-select :
    (p : LiveItem → Bool) (k : String) (l : List LiveItem)
    → occ k (guids (select p l)) ≤ occ k (guids l)
unfolding select occ
occ-select p k [] = omega arith
occ-select p k (x ∷ l) = ground (arith, occ-select p k l)

-- The rows that the last step keeps, of those that survived the first three.
abbrev final : List LiveItem → List LiveItem
final left =
    let active = (active_guids 0 left).0 in
    let ended = (ended_guids 0 (newest_first (select is_ended left))).0 in
    select (λ item. contains item.live_item_guid (active ++ ended)) left

module _ (left : List LiveItem) (d : IsDistinct (guids left)) where
  abbrev active : List String
  active = (active_guids 0 left).0

  abbrev ended : List String
  ended = (ended_guids 0 (newest_first (select is_ended left))).0

  active-occ : (k : String) → occ k active ≤ occ k (guids (select is_active left))
  active-occ k = active_guids-occ k 0 left

  ended-occ : (k : String) → occ k ended ≤ occ k (guids (select is_ended left))
  ended-occ k = omega (
    arith,
    ended_guids-occ k 0 (newest_first (select is_ended left)),
    occ-newest_first k (select is_ended left),
  )

  final-length : length (final left) ≡ length active + length ended
  final-length =
      let whole = length-select (active ++ ended) left d λ k.
        omega (arith, occ-append k active ended, active-occ k, ended-occ k, occ-split k left) in
      omega (arith, whole, length-append active ended)

  -- Of the rows that are kept, the active ones are those of the first list, the ended ones those of
  -- the second.
  final-active : length (select is_active (final left)) ≡ length active
  final-active =
      let swap =
        select-select is_active (λ item. contains item.live_item_guid (active ++ ended)) left in
      let agree =
        select-agree (active ++ ended) active (select is_active left)
          λ k p. omega (arith, occ-append k active ended, ended-occ k, occ-split k left, d k, p) in
      let sel =
        length-select active (select is_active left)
          (λ k. omega (arith, occ-select is_active k left, d k)) active-occ in
      rw (swap, agree) sel

  final-ended : length (select is_ended (final left)) ≡ length ended
  final-ended = omega (arith, final-length, final-active, length-split (final left))

abbrev left_of : List LiveItem → List LiveItem
left_of items = (survivors (deduped [] (known_status items).0).0).0

left_of-IsDistinct : (items : List LiveItem) → IsDistinct (guids (left_of items))
unfolding contains
left_of-IsDistinct items k = ground (
  arith,
  survivors-occ k (deduped [] (known_status items).0).0,
  deduped-once k [] (known_status items).0,
)

left_of-All : (items : List LiveItem) → All IsKnown (left_of items) × All IsAllowed (left_of items)
left_of-All items = (
  survivors-All IsKnown _ (deduped-All IsKnown [] _ (known_status-IsKnown items)),
  survivors-IsAllowed (deduped [] (known_status items).0).0,
)

left_of-Subsequence : (items : List LiveItem) → Subsequence (left_of items) items
left_of-Subsequence items =
    Subsequence-trans (survivors-Subsequence _)
      (Subsequence-trans (deduped-Subsequence [] _) (known_status-Subsequence items))

-- What a selection of the items is: rows of the feed in its order, each of a known status and not
-- banned, no GUID twice, at most ten active and at most ten ended.
pub record IsSelection (items kept : List LiveItem) : Type 0 where
  pub in_order : Subsequence kept items
  pub known : All IsKnown kept
  pub allowed : All IsAllowed kept
  pub distinct : IsDistinct (guids kept)
  pub few_active : length (select is_active kept) ≤ 10
  pub few_ended : length (select is_ended kept) ≤ 10

final-IsSelection :
    (items left : List LiveItem)
    → Subsequence left items
    → All IsKnown left
    → All IsAllowed left
    → IsDistinct (guids left)
    → IsSelection items (final left)
final-IsSelection items left s known allowed d = record {
  in_order = Subsequence-trans (Subsequence-select _ left) s;
  known = All-select IsKnown _ left known;
  allowed = All-select IsAllowed _ left allowed;
  distinct = λ k. omega (arith, occ-select _ k left, d k);
  few_active = omega (arith, final-active left d, active_guids-le 0 left (omega arith));
  few_ended =
      omega (arith, final-ended left d, ended_guids-le 0 (newest_first (select is_ended left)));
}

-- The rows that `select_live_items` keeps are rows of the feed in the feed's order, each with one of
-- the three statuses and not banned, with no GUID twice, at most ten that have not ended and at most
-- ten that have.
pub select_live_items-IsSelection :
    (items : List LiveItem) → IsSelection items (select_live_items items).0
unfolding select_live_items
select_live_items-IsSelection items =
    final-IsSelection items (left_of items) (left_of-Subsequence items) (left_of-All items).0
      (left_of-All items).1 (left_of-IsDistinct items)
