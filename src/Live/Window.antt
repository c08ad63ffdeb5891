-- ===== src/Live/Window.antt =====
-- The ban of an unrelayed live item in src/live.rs: the six hours, and the subtraction that wraps.
use stophammer.Common.{
  ◌^◌, ◌*◌, ◌≡◌, ◌≢◌, ◌↔◌, refl, Bool, true, false, not, ◌||◌, Option, none, some, String, str_eq,
  eq_iff, Bool-cases, inl, inr, arith, if◌then◌else◌,
}
use stophammer.Common.Int.{ℤ, pos, negsuc, ◌-ℤ◌, ◌≤ℤ◌, ◌<ℤ◌, IsI64, sub_i64, sub_i64-eq, ltb_ℤ}
use stophammer.Common.Text.{eq_ignore_ascii_case}
use stophammer.Live.Items.{
  LiveItem, max_unrelayed_live_secs, has_relay_link, is_banned_live_item, is_filled,
  window_too_long,
}

wraps_negative :
    (s e : ℤ)
    → IsI64 s
    → IsI64 e
    → pos (2 ^ 63) ≤ℤ (e -ℤ s)
    → ltb_ℤ (pos max_unrelayed_live_secs) (sub_i64 e s) ≡ false
unfolding sub_i64
wraps_negative (negsuc n) (pos m) p q w = ground arith
wraps_negative (negsuc n) (negsuc m) p q w = absurd (ground arith)
wraps_negative (pos n) (pos m) p q w = absurd (ground arith)
wraps_negative (pos n) (negsuc m) p q w = absurd (ground arith)

module _ (item : LiveItem) (start_at end_at : ℤ) (hs : item.start_at ≡ some start_at)
    (he : item.end_at ≡ some end_at) (live : eq_ignore_ascii_case item.status "live" ≡ true)
    (unrelayed : has_relay_link item ≡ false) where
  banned-window :
      is_banned_live_item item ≡ ltb_ℤ (pos max_unrelayed_live_secs) (sub_i64 end_at start_at)
  unfolding is_banned_live_item
  banned-window = rw (live, unrelayed, hs, he) refl

  -- Where the difference passes the largest i64, the subtraction wraps to a negative number and the
  -- item is not banned, however long its window is.
  pub is_banned_live_item-wraps :
      IsI64 start_at
      → IsI64 end_at
      → pos (2 ^ 63) ≤ℤ (end_at -ℤ start_at)
      → is_banned_live_item item ≡ false
  is_banned_live_item-wraps is ie wide =
      rw banned-window (wraps_negative start_at end_at is ie wide)

-- A relay link that is there and not empty.
abbrev pub IsRelayed : Option String → Type 0
IsRelayed none = ⊥
IsRelayed (some uri) = uri ≢ ""

-- The window is longer than six hours: it has no start, no end, or an end that lies so far after its start.
abbrev pub IsLong : Option ℤ → Option ℤ → Type 0
IsLong (some start_at) (some end_at) = pos (6 * 3600) <ℤ (end_at -ℤ start_at)
IsLong (some start_at) none = Unit
IsLong none end_at = Unit

-- The difference of the two times fits an i64.
abbrev pub IsMeasured : Option ℤ → Option ℤ → Type 0
IsMeasured (some start_at) (some end_at) = IsI64 (end_at -ℤ start_at)
IsMeasured (some start_at) none = Unit
IsMeasured none end_at = Unit

apart : false ≡ true → ⊥
apart e = cc

is_filled_iff : (o : Option String) → (is_filled o ≡ true) ↔ IsRelayed o
is_filled_iff none = (λ e. cc, λ e. absurd e)
is_filled_iff (some uri) = elim (Bool-cases (str_eq uri "")) [
  | inl e ↦ rw e ((λ h. cc), λ other. absurd (other ((eq_iff uri "").0 e)))
  | inr e ↦ rw e ((λ h same. unequal e ((eq_iff uri "").1 same)), λ other. refl)
]
  where
    unequal : str_eq uri "" ≡ false → str_eq uri "" ≡ true → ⊥
    unequal a b = cc

window_iff : (a b : Option ℤ) → IsMeasured a b → (window_too_long a b ≡ true) ↔ IsLong a b
window_iff (some s) (some e) fits = rw (sub_i64-eq e s fits) (ground arith)
window_iff (some s) none fits = (λ h. tt, λ h. refl)
window_iff none none fits = (λ h. tt, λ h. refl)
window_iff none (some e) fits = (λ h. tt, λ h. refl)

by_tests :
    {relayed long : Type 0} (live filled too_long : Bool)
    → ((filled ≡ true) ↔ relayed)
    → ((too_long ≡ true) ↔ long)
    → ((if not live || filled then false else too_long) ≡ true)
      ↔ ((live ≡ true) × (¬ relayed × long))
by_tests true true too_long r l = ((λ h. cc), λ h. absurd (h.1.0 (r.0 refl)))
by_tests true false too_long r l = ((λ h. (refl, ((λ x. apart (r.1 x)), l.0 h))), λ h. l.1 h.1.1)
by_tests false filled too_long r l = ((λ h. cc), λ h. absurd (apart h.0))

-- An item is banned exactly when its status is `live` in any case, it has no relay link or an empty one, and
-- its window has no start, no end, or more than six hours, where the difference of two given times fits an
-- i64.
pub is_banned_live_item_iff :
    (item : LiveItem)
    → IsMeasured item.start_at item.end_at
    → (is_banned_live_item item ≡ true) ↔ (
        (eq_ignore_ascii_case item.status "live" ≡ true)
        × (¬ (IsRelayed item.live_value_uri) × IsLong item.start_at item.end_at))
unfolding is_banned_live_item has_relay_link
is_banned_live_item_iff item fits =
    by_tests (eq_ignore_ascii_case item.status "live") (is_filled item.live_value_uri)
      (window_too_long item.start_at item.end_at) (is_filled_iff item.live_value_uri)
      (window_iff item.start_at item.end_at fits)
