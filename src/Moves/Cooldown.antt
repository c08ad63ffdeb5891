-- ===== src/Moves/Cooldown.antt =====
-- The wait after a return, `return_cooldown_end` of src/db.rs, without its cap on the shift.
use stophammer.Common.{
  ℕ, zero, suc, ◌*◌, ◌^◌, ◌-◌, ◌≤◌, ◌<◌, min, ◌≡◌, sym, ap, ◌∙◌, Bool, true, false, Option, none,
  some, arith, ltb, leb, Bool-cases, inl, inr, ◌↔◌, if◌then◌else◌,
}
use stophammer.Common.Int.{
  ℤ, pos, ◌+ℤ◌, ◌-ℤ◌, ◌<ℤ◌, IsI64, sub_i64, sub_i64-eq, saturating_add, saturating_sub, ltb_ℤ,
  ltb_ℤ→lt, lt→ltb_ℤ,
}
use stophammer.Moves.State.{
  MoveState, return_count_reset_secs, wait_of, add_wait, effective_return_count,
  return_cooldown_end,
}
use stophammer.Moves.Decide.{is_waiting, is_after}

-- The wait after return number c + 1: it doubles from an hour up to seven days.
abbrev pub wait_after : ℕ → ℕ
wait_after c = min (3600 * 2 ^ c) 604800

one_le_pow : (c : ℕ) → 1 ≤ 2 ^ c
one_le_pow zero = omega arith
one_le_pow (suc c) = omega (arith, one_le_pow c)

pow_ge : (c : ℕ) → 20 ≤ c → 2 ^ 20 ≤ 2 ^ c
pow_ge zero h = absurd (omega (arith, h))
pow_ge (suc c) h = elim (Bool-cases (leb 20 c)) [
  | inl e ↦ omega (arith, pow_ge c (ground arith))
  | inr e ↦ let same : suc c ≡ 20 = ground arith in rw same (omega arith)
]

less_one : (c : ℕ) → suc c < 2 ^ 63 → sub_i64 (pos (suc c)) (pos 1) ≡ pos c
unfolding ◌-ℤ◌
less_one c h =
    let exact : pos (suc c) -ℤ pos 1 ≡ pos c = ground arith in
    sub_i64-eq (pos (suc c)) (pos 1) (rw exact (omega arith, omega (arith, h))) ∙ exact

abbrev cap : ℕ → ℕ
cap c = min (if ltb c (2 ^ 32) then c else 2 ^ 32 - 1) 20

cap-small : (c : ℕ) → c ≤ 20 → cap c ≡ c
cap-small c h = ground arith

cap-large : (c : ℕ) → 20 ≤ c → cap c ≡ 20
cap-large c h = ground arith

wait_of-suc : (c : ℕ) → suc c < 2 ^ 63 → wait_of (pos (suc c)) ≡ wait_after c
wait_of-suc c h = rw (less_one c h) (elim (Bool-cases (leb c 20)) [
  | inl e ↦ ap (λ n. min (3600 * 2 ^ n) 604800) (cap-small c (ground arith))
  | inr e ↦
      ap (λ n. min (3600 * 2 ^ n) 604800) (cap-large c (ground arith))
      ∙ omega (arith, pow_ge c (ground arith))
])

effective-recent :
    (c : ℕ) (last now : ℤ)
    → ltb_ℤ (saturating_sub now last) (pos return_count_reset_secs) ≡ true
    → effective_return_count (pos (suc c)) (some last) now ≡ pos (suc c)
unfolding effective_return_count
effective-recent c last now h = ground arith

effective-old :
    (count last now : ℤ)
    → ltb_ℤ (saturating_sub now last) (pos return_count_reset_secs) ≡ false
    → effective_return_count count (some last) now ≡ pos 0
unfolding effective_return_count
effective-old count last now h = ground arith

abbrev end_of : ℤ → Option ℤ → Option ℤ
end_of effective last_return_at =
    if ltb_ℤ effective (pos 1) then none else add_wait (wait_of effective) last_return_at

end_of-suc :
    (c : ℕ) (last : ℤ)
    → suc c < 2 ^ 63
    → end_of (pos (suc c)) (some last) ≡ some (saturating_add last (pos (wait_after c)))
end_of-suc c last h =
    let at_least_one : ltb_ℤ (pos (suc c)) (pos 1) ≡ false = ground arith in
    ap (λ b. if b then none else add_wait (wait_of (pos (suc c))) (some last)) at_least_one
    ∙ ap (λ w. some (saturating_add last (pos w))) (wait_of-suc c h)

-- The end of the wait for a positive count: where the last return is less than 30 days back, it is
-- the time of the return and the wait after it, and otherwise no wait applies.
pub return_cooldown_end-wait :
    (c : ℕ) (last now : ℤ)
    → suc c < 2 ^ 63
    → return_cooldown_end (pos (suc c)) (some last) now ≡ (
        if ltb_ℤ (saturating_sub now last) (pos return_count_reset_secs)
        then some (saturating_add last (pos (wait_after c)))
        else none)
unfolding return_cooldown_end
return_cooldown_end-wait c last now h =
    elim (Bool-cases (ltb_ℤ (saturating_sub now last) (pos return_count_reset_secs))) [
      | inl e ↦
          ap (λ x. end_of x (some last)) (effective-recent c last now e)
          ∙ end_of-suc c last h
          ∙ sym (choose e)
      | inr e ↦
          ap (λ x. end_of x (some last)) (effective-old (pos (suc c)) last now e) ∙ sym (choose e)
    ]
  where
    choose :
        {b : Bool}
        → ltb_ℤ (saturating_sub now last) (pos return_count_reset_secs) ≡ b
        → (if ltb_ℤ (saturating_sub now last) (pos return_count_reset_secs)
            then some (saturating_add last (pos (wait_after c)))
            else none)
          ≡ (if b then some (saturating_add last (pos (wait_after c))) else none)
    choose e = ap (λ b. if b then some (saturating_add last (pos (wait_after c))) else none) e

-- Clamping does nothing in range.
saturating_add-eq : (a b : ℤ) → IsI64 (a +ℤ b) → saturating_add a b ≡ a +ℤ b
unfolding saturating_add
saturating_add-eq a b h = ground arith

saturating_sub-eq : (a b : ℤ) → IsI64 (a -ℤ b) → saturating_sub a b ≡ a -ℤ b
unfolding saturating_sub
saturating_sub-eq a b h = ground arith

wait_after-le : (c : ℕ) → wait_after c ≤ 604800
wait_after-le c = omega arith

fits_between : (a : ℤ) (w : ℕ) → w ≤ 604800 → IsI64 a → IsI64 (a +ℤ pos 604800) → IsI64 (a +ℤ pos w)
unfolding ◌+ℤ◌
fits_between a w h p q = (ground arith, ground arith)

-- The record waits until the end of the wait, and 30 days are longer than any wait.
compare_ends :
    (a now : ℤ) (w : ℕ)
    → w ≤ 604800
    → is_after now
        (if ltb_ℤ (now -ℤ a) (pos return_count_reset_secs) then some (a +ℤ pos w) else none)
      ≡ ltb_ℤ now (a +ℤ pos w)
unfolding ◌-ℤ◌ ◌+ℤ◌
compare_ends a now w h = ground arith

-- After a return at the time `at`, which is the return number c + 1 in a row, the record waits exactly
-- while less than `wait_after c` seconds have passed: an hour after the first return, twice as long
-- after each further one, and seven days at most. The count and the times are within their bounds, and
-- the time now is not before the return.
pub is_waiting_iff :
    (state : MoveState) (c : ℕ) (at now : ℤ)
    → state.return_count ≡ pos (suc c)
    → state.last_return_at ≡ some at
    → suc c < 2 ^ 63
    → IsI64 at
    → IsI64 (now -ℤ at)
    → IsI64 (at +ℤ pos 604800)
    → (is_waiting state now ≡ true) ↔ (now <ℤ (at +ℤ pos (wait_after c)))
unfolding is_waiting
is_waiting_iff state c at now hc hl small fa fd fe =
    let exact_end : saturating_add at (pos (wait_after c)) ≡ at +ℤ pos (wait_after c) =
      saturating_add-eq at (pos (wait_after c))
        (fits_between at (wait_after c) (wait_after-le c) fa fe) in
    let same : is_waiting state now ≡ ltb_ℤ now (at +ℤ pos (wait_after c)) =
      ap (λ x. is_after now (return_cooldown_end x state.last_return_at now)) hc
      ∙ ap (λ x. is_after now (return_cooldown_end (pos (suc c)) x now)) hl
      ∙ ap (is_after now) (return_cooldown_end-wait c at now small)
      ∙ ap
          (λ d. is_after now (
            if ltb_ℤ d (pos return_count_reset_secs)
            then some (saturating_add at (pos (wait_after c)))
            else none))
          (saturating_sub-eq now at fd)
      ∙ ap
          (λ d.
            is_after now (if ltb_ℤ (now -ℤ at) (pos return_count_reset_secs) then some d else none))
          exact_end
      ∙ compare_ends at now (wait_after c) (wait_after-le c) in
    (
      λ h. ltb_ℤ→lt now (at +ℤ pos (wait_after c)) (sym same ∙ h),
      λ h. same ∙ lt→ltb_ℤ now (at +ℤ pos (wait_after c)) h,
    )
