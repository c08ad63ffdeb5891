-- ===== src/Sync/Pages.antt =====
-- The pages of `GET /sync/events` (`handle_sync_events` of src/api.rs), read one after the other.
use stophammer.Common.{
  ℕ, zero, suc, ◌+◌, ◌-◌, ◌≤◌, ◌<◌, ◌≡◌, refl, sym, ap, ◌∙◌, true, false, Option, none, some, List,
  [], ◌∷◌, ◌++◌, select, take, drop, length, take-append-drop, leb, leb→le, ◌*◌, ◌==◌, ==_iff, All,
  All-map, select-All, All-select, Bool-cases, inl, inr, arith, if◌then◌else◌,
}
use stophammer.Common.Int.{ℤ, pos_part, ltb_ℤ, ◌<ℤ◌, ◌≤ℤ◌}
use stophammer.Sync.Log.{Event, limit_rows, after, get_events_since}
use stophammer.Sync.Order.{IsOrdered}
use stophammer.Sync.Serve.{capped_limit, last_seq, handle_sync_events}

-- A client that asks again from `next_seq` while `has_more` holds, for at most `rounds` pages.
unfoldable pub read_pages : ℕ → List Event → ℤ → Option ℤ → List Event
unfolding handle_sync_events
read_pages zero log after_seq limit = []
read_pages (suc rounds) log after_seq limit =
    let page = handle_sync_events log after_seq limit in
    let rest = read_pages rounds log page.next_seq limit in
    if page.has_more then page.events ++ rest else page.events

capped_limit-bounds :
    (limit : Option ℤ)
    → (1 ≤ pos_part (capped_limit limit))
      × (pos_part (capped_limit limit) ≤ 1000)
      × (limit_rows (capped_limit limit) ≡ pos_part (capped_limit limit))
unfolding capped_limit
capped_limit-bounds none = (omega arith, omega arith, refl)
capped_limit-bounds (some l) = (ground arith, ground arith, ground arith)

after-none : (x : ℤ) (log : List Event) → All (λ e. e.seq ≤ℤ x) log → after x log ≡ []
unfolding after select
after-none x [] h = refl
after-none x (e ∷ rest) h = ground (arith, after-none x rest h.1)

after_whole : (x : ℤ) (log : List Event) → All (λ e. x <ℤ e.seq) log → after x log ≡ log
unfolding after select
after_whole x [] h = refl
after_whole x (e ∷ rest) h =
    let q : ltb_ℤ x e.seq ≡ true = ground arith in rw q (ap (λ l. e ∷ l) (after_whole x rest h.1))

after-after : (x y : ℤ) (log : List Event) → x ≤ℤ y → after y (after x log) ≡ after y log
unfolding after select
after-after x y [] h = refl
after-after x y (e ∷ rest) h = ground (arith, after-after x y rest h)

after-gt : (x : ℤ) (log : List Event) → All (λ e. x <ℤ e.seq) (after x log)
unfolding after
after-gt x log =
    All-map (λ e. ltb_ℤ x e.seq ≡ true) (λ e. x <ℤ e.seq) (select (λ e. ltb_ℤ x e.seq) log)
      (λ e h. ground arith) (select-All (λ e. ltb_ℤ x e.seq) log)

after-IsOrdered : (x : ℤ) (log : List Event) → IsOrdered log → IsOrdered (after x log)
unfolding after select
after-IsOrdered x [] o = tt
after-IsOrdered x (e ∷ rest) o = elim (Bool-cases (ltb_ℤ x e.seq)) [
  | inl h ↦
      rw h
        (All-select (λ f. e.seq <ℤ f.seq) (λ f. ltb_ℤ x f.seq) rest o.0, after-IsOrdered x rest o.1)
  | inr h ↦ rw h (after-IsOrdered x rest o.1)
]

last_seq-ge :
    (x : ℤ) (n : ℕ) (l : List Event)
    → All (λ e. x <ℤ e.seq) l
    → IsOrdered l
    → x ≤ℤ last_seq x (take n l)
unfolding last_seq
last_seq-ge x zero l h o = omega arith
last_seq-ge x (suc n) [] h o = omega arith
last_seq-ge x (suc n) (e ∷ l) h o = ground (arith, last_seq-ge e.seq n l o.0 o.1)

skip_row : (y : ℤ) (e : Event) (l : List Event) → e.seq ≤ℤ y → after y (e ∷ l) ≡ after y l
unfolding after select
skip_row y e l q = ground arith

after-last_seq :
    (x : ℤ) (n : ℕ) (l : List Event)
    → All (λ e. x <ℤ e.seq) l
    → IsOrdered l
    → after (last_seq x (take n l)) l ≡ drop n l
unfolding last_seq
after-last_seq x zero l h o = after_whole x l h
after-last_seq x (suc n) [] h o = after-none x [] tt
after-last_seq x (suc n) (e ∷ l) h o =
    skip_row (last_seq e.seq (take n l)) e l (last_seq-ge e.seq n l o.0 o.1)
    ∙ after-last_seq e.seq n l o.0 o.1

-- Where a client asks from `next_seq`, it gets what the page left.
after-next :
    (log : List Event) (x : ℤ) (n : ℕ)
    → IsOrdered log
    → after (last_seq x (take n (after x log))) log ≡ drop n (after x log)
after-next log x n o =
    sym (
      after-after x (last_seq x (take n (after x log))) log
        (last_seq-ge x n (after x log) (after-gt x log) (after-IsOrdered x log o)))
    ∙ after-last_seq x n (after x log) (after-gt x log) (after-IsOrdered x log o)

next_round : (rounds n : ℕ) → suc rounds * n ≡ n + rounds * n
next_round rounds n = grind arith

lt→neq : (a b : ℕ) → a < b → (a == b) ≡ false
lt→neq a b h = ground arith

length-drop : (n : ℕ) (l : List Event) → length (drop n l) ≡ length l - n
length-drop zero l = omega arith
length-drop (suc n) [] = omega arith
length-drop (suc n) (e ∷ l) = omega (arith, length-drop n l)

take-all : (n : ℕ) (l : List Event) → length l ≤ n → take n l ≡ l
take-all zero [] h = refl
take-all zero (e ∷ l) h = absurd (omega (arith, h))
take-all (suc n) [] h = refl
take-all (suc n) (e ∷ l) h = ap (λ m. e ∷ m) (take-all n l (omega (arith, h)))

length-take : (n : ℕ) (l : List Event) → n ≤ length l → length (take n l) ≡ n
length-take zero l h = refl
length-take (suc n) [] h = omega (arith, h)
length-take (suc n) (e ∷ l) h = omega (arith, length-take n l (omega (arith, h)))

module _ (log : List Event) (o : IsOrdered log) (limit : Option ℤ) where
  abbrev size : ℕ
  size = pos_part (capped_limit limit)

  page_events : (x : ℤ) → (handle_sync_events log x limit).events ≡ take size (after x log)
  unfolding handle_sync_events get_events_since
  page_events x = ap (λ n. take n (after x log)) (capped_limit-bounds limit).2

  page_rest :
      (x : ℤ) → after (handle_sync_events log x limit).next_seq log ≡ drop size (after x log)
  unfolding handle_sync_events
  page_rest x = ap (λ l. after (last_seq x l) log) (page_events x) ∙ after-next log x size o

  page_more :
      (x : ℤ)
      → (handle_sync_events log x limit).has_more ≡ (length (take size (after x log)) == size)
  unfolding handle_sync_events
  page_more x = ap (λ l. length l == size) (page_events x)

  -- Reading page after page from `next_seq` gives every event after the first cursor, once and in the
  -- order of the log, for any limit that the client asks for. The rounds times the page size, which is
  -- from 1 to 1000, are more than the events to read.
  pub read_pages-after :
      (rounds : ℕ) (x : ℤ)
      → length (after x log) < rounds * size
      → read_pages rounds log x limit ≡ after x log
  unfolding read_pages
  read_pages-after zero x h = absurd (omega (arith, h))
  read_pages-after (suc rounds) x h = elim (Bool-cases (leb size (length (after x log)))) [
    | inl full ↦
        let more : (handle_sync_events log x limit).has_more ≡ true =
          page_more x
          ∙ (==_iff (length (take size (after x log))) size).1
              (length-take size (after x log) (leb→le size (length (after x log)) full)) in
        let enough : length (after (handle_sync_events log x limit).next_seq log) < rounds * size =
          omega (
            arith,
            ap length (page_rest x),
            length-drop size (after x log),
            leb→le size (length (after x log)) full,
            next_round rounds size,
            h,
            (capped_limit-bounds limit).0,
          ) in
        let rest = read_pages-after rounds (handle_sync_events log x limit).next_seq enough in
        ap
          (λ b.
            if b
            then (handle_sync_events log x limit).events
              ++ read_pages rounds log (handle_sync_events log x limit).next_seq limit
            else (handle_sync_events log x limit).events)
          more
        ∙ ap (λ l. l ++ read_pages rounds log (handle_sync_events log x limit).next_seq limit)
            (page_events x)
        ∙ ap (λ l. take size (after x log) ++ l) (rest ∙ page_rest x)
        ∙ take-append-drop size (after x log)
    | inr small ↦
        let short : length (after x log) < size = ground arith in
        let whole : take size (after x log) ≡ after x log =
          take-all size (after x log) (omega (arith, short)) in
        let more : (handle_sync_events log x limit).has_more ≡ false =
          page_more x
          ∙ ap (λ l. length l == size) whole
          ∙ lt→neq (length (after x log)) size short in
        ap
          (λ b.
            if b
            then (handle_sync_events log x limit).events
              ++ read_pages rounds log (handle_sync_events log x limit).next_seq limit
            else (handle_sync_events log x limit).events)
          more
        ∙ page_events x
        ∙ whole
  ]
