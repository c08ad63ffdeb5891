-- ===== src/Index/Follow/Cellwise.antt =====
-- Reading a field back from its cell, and the rows that agree in the cells that are compared.
use stophammer.Common.{
  ◌≡◌, refl, sym, ap, ◌∙◌, Bool, true, false, Option, none, some, List, [], ◌∷◌, String, str_eq,
  map, ℕ, zero, suc, if◌then◌else◌,
}
use stophammer.Common.Int.{ℤ, pos}
use stophammer.Common.Cells.{Cell, null, int, text, opt_text, opt_int, flag}
use stophammer.Index.Rows.{RouteType, node, wallet, keysend, lnaddress, route_type_name}
use stophammer.Index.Follow.FeedRow.{opt_fields}
use stophammer.Common.Keyed.{map_row}

abbrev pub at : ℕ → List Cell → Cell
at n [] = null
at zero (c ∷ cells) = c
at (suc n) (c ∷ cells) = at n cells

abbrev pub as_text : Cell → String
as_text null = ""
as_text (int n) = ""
as_text (text s) = s

abbrev pub as_opt_text : Cell → Option String
as_opt_text null = none
as_opt_text (int n) = none
as_opt_text (text s) = some s

abbrev pub as_int : Cell → ℤ
as_int null = pos 0
as_int (int n) = n
as_int (text s) = pos 0

abbrev pub as_opt_int : Cell → Option ℤ
as_opt_int null = none
as_opt_int (int n) = some n
as_opt_int (text s) = none

abbrev pub as_flag : Cell → Bool
as_flag (int (pos (suc n))) = true
as_flag c = false

abbrev route_of : String → RouteType
route_of s =
    if str_eq s "node"
    then node
    else if str_eq s "wallet"
    then wallet
    else if str_eq s "keysend"
    then keysend
    else lnaddress

abbrev pub as_route : Cell → RouteType
as_route c = route_of (as_text c)

pub opt_text_lem : (o : Option String) → as_opt_text (opt_text o) ≡ o
opt_text_lem none = refl
opt_text_lem (some s) = refl

pub opt_int_lem : (o : Option ℤ) → as_opt_int (opt_int o) ≡ o
opt_int_lem none = refl
opt_int_lem (some n) = refl

pub flag_lem : (b : Bool) → as_flag (flag b) ≡ b
flag_lem true = refl
flag_lem false = refl

pub route_lem : (t : RouteType) → as_route (text (route_type_name t)) ≡ t
route_lem node = refl
route_lem wallet = refl
route_lem keysend = refl
route_lem lnaddress = refl

-- Two rows have the same cells exactly when their shared parts are equal.
abbrev pub IsShared {ℓ} : {A : Type ℓ} → (A → List Cell) → (A → A) → Type ℓ
IsShared {A} fields shared =
    ((a : A) → fields (shared a) ≡ fields a)
    × ((a b : A) → fields a ≡ fields b → shared a ≡ shared b)

pub shared_lem {ℓ} :
    {A : Type ℓ} (fields : A → List Cell) (shared : A → A) (of : List Cell → A)
    → ((a : A) → fields (shared a) ≡ fields a)
    → ((a : A) → of (fields a) ≡ shared a)
    → IsShared fields shared
shared_lem fields shared of kept back = (kept, λ a b e. sym (back a) ∙ ap of e ∙ back b)

module _ {ℓ} {A : Type ℓ} (fields : A → List Cell) (shared : A → A)
    (h : IsShared fields shared) where
  pub map_to_shared :
      (xs ys : List A) → map fields xs ≡ map fields ys → map shared xs ≡ map shared ys
  map_to_shared [] [] e = refl
  map_to_shared [] (y ∷ ys) e = cc
  map_to_shared (x ∷ xs) [] e = cc
  map_to_shared (x ∷ xs) (y ∷ ys) e =
      let head : fields x ≡ fields y = cc in
      let tail = map_to_shared xs ys (cc) in let row = h.1 x y head in cc

  fields-shared : (xs : List A) → map fields (map shared xs) ≡ map fields xs
  fields-shared [] = refl
  fields-shared (x ∷ xs) = let row = h.0 x in let rest = fields-shared xs in cc

  pub map_from_shared :
      (xs ys : List A) → map shared xs ≡ map shared ys → map fields xs ≡ map fields ys
  map_from_shared xs ys e = sym (fields-shared xs) ∙ ap (map fields) e ∙ fields-shared ys

  pub opt_to_shared :
      (x y : Option A)
      → opt_fields fields x ≡ opt_fields fields y
      → map_row shared x ≡ map_row shared y
  opt_to_shared none none e = refl
  opt_to_shared none (some y) e = cc
  opt_to_shared (some x) none e = cc
  opt_to_shared (some x) (some y) e = let row : fields x ≡ fields y = cc in ap some (h.1 x y row)

  pub opt_from_shared :
      (x y : Option A)
      → map_row shared x ≡ map_row shared y
      → opt_fields fields x ≡ opt_fields fields y
  opt_from_shared none none e = refl
  opt_from_shared none (some y) e = cc
  opt_from_shared (some x) none e = cc
  opt_from_shared (some x) (some y) e =
      let row : shared x ≡ shared y = cc in ap some (sym (h.0 x) ∙ ap fields row ∙ h.0 y)
