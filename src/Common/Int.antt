-- ===== src/Common/Int.antt =====
-- Signed integers over the native numbers, and the `i64` operations of Rust.
-- `end_at - start_at` and `now + margin` wrap in a release build, which checks no overflow;
-- `saturating_add` and `saturating_sub` clamp.
use Prim.Native.Nat.{ℕ, suc, ◌+◌, ◌-◌, ◌≤◌, ◌<◌, ◌^◌, ◌%◌}
use mathlib.Core.Path.{◌≡◌}
use mathlib.Core.Bool.{Bool, true}
use native.Mathlib.Omega.{arith}
use stophammer.Common.Tests.{ltb, leb, if◌then◌else◌}

-- `negsuc n` is -(n + 1).
pub data ℤ : Type 0 where
  pos : ℕ → ℤ
  negsuc : ℕ → ℤ

abbrev pub pos_part : ℤ → ℕ
pos_part (pos n) = n
pos_part (negsuc n) = 0

abbrev pub neg_part : ℤ → ℕ
neg_part (pos n) = 0
neg_part (negsuc n) = suc n

abbrev pub sub_ℕ : ℕ → ℕ → ℤ
sub_ℕ a b = if leb b a then pos (a - b) else negsuc (b - a - 1)

infixl 65 ◌+ℤ◌ ◌-ℤ◌
infix 50 ◌≤ℤ◌ ◌<ℤ◌
unfoldable pub ◌+ℤ◌ : ℤ → ℤ → ℤ
a +ℤ b = sub_ℕ (pos_part a + pos_part b) (neg_part a + neg_part b)

unfoldable pub ◌-ℤ◌ : ℤ → ℤ → ℤ
a -ℤ b = sub_ℕ (pos_part a + neg_part b) (neg_part a + pos_part b)

abbrev pub ◌≤ℤ◌ : ℤ → ℤ → Type 0
a ≤ℤ b = pos_part a + neg_part b ≤ pos_part b + neg_part a

abbrev pub ◌<ℤ◌ : ℤ → ℤ → Type 0
a <ℤ b = pos_part a + neg_part b < pos_part b + neg_part a

abbrev pub ltb_ℤ : ℤ → ℤ → Bool
ltb_ℤ a b = ltb (pos_part a + neg_part b) (pos_part b + neg_part a)

abbrev pub leb_ℤ : ℤ → ℤ → Bool
leb_ℤ a b = leb (pos_part a + neg_part b) (pos_part b + neg_part a)

-- The values of an `i64`, from -2^63 to 2^63 - 1.
abbrev pub IsI64 : ℤ → Type 0
IsI64 a = (neg_part a ≤ 2 ^ 63) × (pos_part a < 2 ^ 63)

-- The 64 bits of an integer, and the `i64` that 64 bits stand for.
abbrev bits64 : ℤ → ℕ
bits64 (pos n) = n % 2 ^ 64
bits64 (negsuc n) = 2 ^ 64 - 1 - n % 2 ^ 64

abbrev signed64 : ℕ → ℤ
signed64 m = if ltb m (2 ^ 63) then pos m else negsuc (2 ^ 64 - 1 - m)

unfoldable pub wrap_i64 : ℤ → ℤ
wrap_i64 a = signed64 (bits64 a)

-- `a + b` and `a - b` on `i64`, as a release build computes them.
unfoldable pub add_i64 : ℤ → ℤ → ℤ
unfolding wrap_i64 ◌+ℤ◌
add_i64 a b = wrap_i64 (a +ℤ b)

unfoldable pub sub_i64 : ℤ → ℤ → ℤ
unfolding wrap_i64 ◌-ℤ◌
sub_i64 a b = wrap_i64 (a -ℤ b)

abbrev clamp_i64 : ℤ → ℤ
clamp_i64 (pos n) = if ltb n (2 ^ 63) then pos n else pos (2 ^ 63 - 1)
clamp_i64 (negsuc n) = if ltb n (2 ^ 63) then negsuc n else negsuc (2 ^ 63 - 1)

-- `i64::saturating_add` and `i64::saturating_sub`.
unfoldable pub saturating_add : ℤ → ℤ → ℤ
unfolding ◌+ℤ◌
saturating_add a b = clamp_i64 (a +ℤ b)

unfoldable pub saturating_sub : ℤ → ℤ → ℤ
unfolding ◌-ℤ◌
saturating_sub a b = clamp_i64 (a -ℤ b)

pub eq_of_parts : (a b : ℤ) → pos_part a + neg_part b ≡ pos_part b + neg_part a → a ≡ b
eq_of_parts a b h = ground arith

pub +ℤ_parts :
    (a b : ℤ)
    → pos_part (a +ℤ b) + neg_part a + neg_part b ≡ neg_part (a +ℤ b) + pos_part a + pos_part b
unfolding ◌+ℤ◌
+ℤ_parts a b = ground arith

pub -ℤ_parts :
    (a b : ℤ)
    → pos_part (a -ℤ b) + neg_part a + pos_part b ≡ neg_part (a -ℤ b) + pos_part a + neg_part b
unfolding ◌-ℤ◌
-ℤ_parts a b = ground arith

-- In range nothing wraps.
pub wrap_i64-eq : (a : ℤ) → IsI64 a → wrap_i64 a ≡ a
unfolding wrap_i64
wrap_i64-eq (pos n) h = ground arith
wrap_i64-eq (negsuc n) h = ground arith

pub add_i64-eq : (a b : ℤ) → IsI64 (a +ℤ b) → add_i64 a b ≡ a +ℤ b
unfolding add_i64
add_i64-eq a b h = wrap_i64-eq (a +ℤ b) h

pub sub_i64-eq : (a b : ℤ) → IsI64 (a -ℤ b) → sub_i64 a b ≡ a -ℤ b
unfolding sub_i64
sub_i64-eq a b h = wrap_i64-eq (a -ℤ b) h

pub ltb_ℤ→lt : (a b : ℤ) → ltb_ℤ a b ≡ true → a <ℤ b
ltb_ℤ→lt a b h = ground arith

pub lt→ltb_ℤ : (a b : ℤ) → a <ℤ b → ltb_ℤ a b ≡ true
lt→ltb_ℤ a b h = ground arith
