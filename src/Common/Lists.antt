-- ===== src/Common/Lists.antt =====
-- Lists measured by native numbers, and the predicates that the invariants use.
use Prim.Native.Nat.{ℕ, zero, suc, ◌+◌, ◌≤◌}
use Prim.Native.String.{String}
use mathlib.Core.Path.{◌≡◌, refl, ap}
use mathlib.Core.Logic.{inl, inr}
use mathlib.Core.Bool.{Bool, true, false, ◌&&◌, ◌||◌}
use mathlib.Core.List.{List, [], ◌∷◌, ◌++◌}
use native.Mathlib.Omega.{arith}
use text.Mathlib.Text.{◌==◌ as str_eq}
use stophammer.Common.Tests.{if◌then◌else◌, Bool-cases}

module _ {ℓ} {A : Type ℓ} where
  abbrev pub length : List A → ℕ
  length [] = 0
  length (x ∷ xs) = suc (length xs)

  abbrev pub take : ℕ → List A → List A
  take zero xs = []
  take (suc n) [] = []
  take (suc n) (x ∷ xs) = x ∷ take n xs

  abbrev pub drop : ℕ → List A → List A
  drop zero xs = xs
  drop (suc n) [] = []
  drop (suc n) (x ∷ xs) = drop n xs

  pub length-append : (xs ys : List A) → length (xs ++ ys) ≡ length xs + length ys
  length-append [] ys = omega arith
  length-append (x ∷ xs) ys = omega (arith, length-append xs ys)

  pub length-take-le : (n : ℕ) (xs : List A) → length (take n xs) ≤ n
  length-take-le zero xs = omega arith
  length-take-le (suc n) [] = omega arith
  length-take-le (suc n) (x ∷ xs) = omega (arith, length-take-le n xs)

  pub take-append-drop : (n : ℕ) (xs : List A) → take n xs ++ drop n xs ≡ xs
  take-append-drop zero xs = refl
  take-append-drop (suc n) [] = refl
  take-append-drop (suc n) (x ∷ xs) = ap (λ l. x ∷ l) (take-append-drop n xs)

-- `Iterator::any`, `Iterator::all` and `Iterator::filter` over a Boolean test.
module _ {ℓ} {A : Type ℓ} where
  unfoldable pub any : (A → Bool) → List A → Bool
  any p [] = false
  any p (x ∷ xs) = p x || any p xs

  unfoldable pub all : (A → Bool) → List A → Bool
  all p [] = true
  all p (x ∷ xs) = p x && all p xs

  unfoldable pub select : (A → Bool) → List A → List A
  select p [] = []
  select p (x ∷ xs) = let rest = select p xs in if p x then x ∷ rest else rest

-- `slice::contains` on texts.
unfoldable pub contains : String → List String → Bool
contains a [] = false
contains a (x ∷ xs) = str_eq x a || contains a xs

abbrev pub All {ℓ κ} : {A : Type ℓ} → (A → Type κ) → List A → Type κ
All P [] = Unit
All P (x ∷ xs) = P x × All P xs

-- Some element satisfies `P`, with the element kept.
pub data Any {ℓ κ} {A : Type ℓ} (P : A → Type κ) : List A → Type (ℓ ⊔ κ) where
  here : {x : A} {xs : List A} → P x → Any P (x ∷ xs)
  there : {x : A} {xs : List A} → Any P xs → Any P (x ∷ xs)

pub any_sound {ℓ} :
    {A : Type ℓ} (p : A → Bool) (xs : List A) → any p xs ≡ true → Any (λ x. p x ≡ true) xs
unfolding any
any_sound p [] h = cc
any_sound p (x ∷ xs) h = elim (Bool-cases (p x)) [
  | inl e ↦ here e
  | inr e ↦ there (any_sound p xs (ground arith))
]

pub any_complete {ℓ} :
    {A : Type ℓ} (p : A → Bool) (xs : List A) → Any (λ x. p x ≡ true) xs → any p xs ≡ true
unfolding any
any_complete p [] m = elim m [ ]
any_complete p (x ∷ xs) (here e) = ground arith
any_complete p (x ∷ xs) (there m) = ground (arith, any_complete p xs m)

pub all_sound {ℓ} :
    {A : Type ℓ} (p : A → Bool) (xs : List A) → all p xs ≡ true → All (λ x. p x ≡ true) xs
unfolding all
all_sound p [] h = tt
all_sound p (x ∷ xs) h = (ground arith, all_sound p xs (ground arith))

pub all_complete {ℓ} :
    {A : Type ℓ} (p : A → Bool) (xs : List A) → All (λ x. p x ≡ true) xs → all p xs ≡ true
unfolding all
all_complete p [] h = refl
all_complete p (x ∷ xs) h = ground (arith, all_complete p xs h.1)

pub All-map {ℓ κ μ} :
    {A : Type ℓ} (P : A → Type κ) (Q : A → Type μ) (xs : List A)
    → ((x : A) → P x → Q x)
    → All P xs
    → All Q xs
All-map P Q [] f h = tt
All-map P Q (x ∷ xs) f h = (f x h.0, All-map P Q xs f h.1)

pub All-append {ℓ κ} :
    {A : Type ℓ} (P : A → Type κ) (xs ys : List A) → All P xs → All P ys → All P (xs ++ ys)
All-append P [] ys hx hy = hy
All-append P (x ∷ xs) ys hx hy = (hx.0, All-append P xs ys hx.1 hy)

pub All-select {ℓ κ} :
    {A : Type ℓ} (P : A → Type κ) (p : A → Bool) (xs : List A) → All P xs → All P (select p xs)
unfolding select
All-select P p [] h = tt
All-select P p (x ∷ xs) h = elim (Bool-cases (p x)) [
  | inl e ↦ rw e (h.0, All-select P p xs h.1)
  | inr e ↦ rw e (All-select P p xs h.1)
]

pub select-All {ℓ} : {A : Type ℓ} (p : A → Bool) (xs : List A) → All (λ x. p x ≡ true) (select p xs)
unfolding select
select-All p [] = tt
select-All p (x ∷ xs) = elim (Bool-cases (p x)) [
  | inl e ↦ rw e (e, select-All p xs)
  | inr e ↦ rw e (select-All p xs)
]

-- The items of the first list stand in the second, in the same order.
pub data Subsequence {ℓ} {A : Type ℓ} : List A → List A → Type ℓ where
  end : Subsequence [] []
  keep : {x : A} {xs ys : List A} → Subsequence xs ys → Subsequence (x ∷ xs) (x ∷ ys)
  skip : {x : A} {xs ys : List A} → Subsequence xs ys → Subsequence xs (x ∷ ys)

pub Subsequence-trans {ℓ} :
    {A : Type ℓ} {xs ys zs : List A} → Subsequence xs ys → Subsequence ys zs → Subsequence xs zs
Subsequence-trans s end = s
Subsequence-trans s (skip t) = skip (Subsequence-trans s t)
Subsequence-trans (keep s) (keep t) = keep (Subsequence-trans s t)
Subsequence-trans (skip s) (keep t) = skip (Subsequence-trans s t)

pub Subsequence-select {ℓ} :
    {A : Type ℓ} (p : A → Bool) (xs : List A) → Subsequence (select p xs) xs
unfolding select
Subsequence-select p [] = end
Subsequence-select p (x ∷ xs) = elim (Bool-cases (p x)) [
  | inl e ↦ rw e (keep (Subsequence-select p xs))
  | inr e ↦ rw e (skip (Subsequence-select p xs))
]

pub select-select {ℓ} :
    {A : Type ℓ} (p q : A → Bool) (xs : List A) → select p (select q xs) ≡ select q (select p xs)
unfolding select
select-select p q [] = refl
select-select p q (x ∷ xs) = ground (arith, select-select p q xs)
