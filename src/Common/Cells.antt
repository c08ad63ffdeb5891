-- ===== src/Common/Cells.antt =====
-- The values of a column in SQLite, their equality and their order: NULL before the integers, these
-- before the texts, and texts by their code points, as the UTF-8 bytes of the BINARY collation.
use stophammer.Common.{
  ℕ, ◌≡◌, refl, ap, ◌↔◌, Bool, true, false, not, ◌&&◌, Option, none, some, List, [], ◌∷◌, String,
  str_eq, eq_iff, ltb, if◌then◌else◌, arith,
}
use stophammer.Common.Int.{ℤ, pos, ltb_ℤ}
use stophammer.Common.Text.{codes}

pub data Cell : Type 0 where
  null : Cell
  int : ℤ → Cell
  text : String → Cell

abbrev pub opt_text : Option String → Cell
opt_text none = null
opt_text (some s) = text s

abbrev pub opt_int : Option ℤ → Cell
opt_int none = null
opt_int (some n) = int n

abbrev pub flag : Bool → Cell
flag true = int (pos 1)
flag false = int (pos 0)

unfoldable pub int_eq : ℤ → ℤ → Bool
int_eq a b = not (ltb_ℤ a b) && not (ltb_ℤ b a)

pub int_eq_iff : (a b : ℤ) → (int_eq a b ≡ true) ↔ (a ≡ b)
unfolding int_eq
int_eq_iff a b = ground arith

unfoldable pub cell_eq : Cell → Cell → Bool
unfolding int_eq
cell_eq null null = true
cell_eq null (int n) = false
cell_eq null (text t) = false
cell_eq (int m) null = false
cell_eq (int m) (int n) = int_eq m n
cell_eq (int m) (text t) = false
cell_eq (text s) null = false
cell_eq (text s) (int n) = false
cell_eq (text s) (text t) = str_eq s t

pub cell_eq_iff : (c d : Cell) → (cell_eq c d ≡ true) ↔ (c ≡ d)
unfolding cell_eq
cell_eq_iff null null = (λ h. refl, λ h. refl)
cell_eq_iff null (int n) = (λ h. cc, λ h. cc)
cell_eq_iff null (text t) = (λ h. cc, λ h. cc)
cell_eq_iff (int m) null = (λ h. cc, λ h. cc)
cell_eq_iff (int m) (int n) = (λ h. ap int ((int_eq_iff m n).0 h), λ h. (int_eq_iff m n).1 (cc))
cell_eq_iff (int m) (text t) = (λ h. cc, λ h. cc)
cell_eq_iff (text s) null = (λ h. cc, λ h. cc)
cell_eq_iff (text s) (int n) = (λ h. cc, λ h. cc)
cell_eq_iff (text s) (text t) = (λ h. ap text ((eq_iff s t).0 h), λ h. (eq_iff s t).1 (cc))

unfoldable pub cells_eq : List Cell → List Cell → Bool
unfolding cell_eq
cells_eq [] [] = true
cells_eq [] (d ∷ t) = false
cells_eq (c ∷ s) [] = false
cells_eq (c ∷ s) (d ∷ t) = cell_eq c d && cells_eq s t

pub cells_eq_iff : (s t : List Cell) → (cells_eq s t ≡ true) ↔ (s ≡ t)
unfolding cells_eq
cells_eq_iff [] [] = (λ h. refl, λ h. refl)
cells_eq_iff [] (d ∷ t) = (λ h. cc, λ h. cc)
cells_eq_iff (c ∷ s) [] = (λ h. cc, λ h. cc)
cells_eq_iff (c ∷ s) (d ∷ t) = (
  λ h.
      let head : c ≡ d = (cell_eq_iff c d).0 (ground arith) in
      let tail : s ≡ t = (cells_eq_iff s t).0 (ground arith) in cc,
  λ h.
      let head : cell_eq c d ≡ true = (cell_eq_iff c d).1 (cc) in
      let tail : cells_eq s t ≡ true = (cells_eq_iff s t).1 (cc) in ground arith,
)

-- Order. A test that neither value is the less one stands for equality.
unfoldable pub codes_lt : List ℕ → List ℕ → Bool
codes_lt [] [] = false
codes_lt [] (d ∷ t) = true
codes_lt (c ∷ s) [] = false
codes_lt (c ∷ s) (d ∷ t) =
    let rest = codes_lt s t in if ltb c d then true else if ltb d c then false else rest

pub codes_lt_asym : (s t : List ℕ) → codes_lt s t ≡ true → codes_lt t s ≡ false
unfolding codes_lt
codes_lt_asym [] [] h = cc
codes_lt_asym [] (d ∷ t) h = refl
codes_lt_asym (c ∷ s) [] h = cc
codes_lt_asym (c ∷ s) (d ∷ t) h = ground (arith, codes_lt_asym s t)

unfoldable pub str_lt : String → String → Bool
unfolding codes_lt
str_lt s t = codes_lt (codes s) (codes t)

unfoldable pub cell_lt : Cell → Cell → Bool
unfolding str_lt
cell_lt null null = false
cell_lt null (int n) = true
cell_lt null (text t) = true
cell_lt (int m) null = false
cell_lt (int m) (int n) = ltb_ℤ m n
cell_lt (int m) (text t) = true
cell_lt (text s) null = false
cell_lt (text s) (int n) = false
cell_lt (text s) (text t) = str_lt s t

cell_lt_asym : (c d : Cell) → cell_lt c d ≡ true → cell_lt d c ≡ false
unfolding cell_lt
cell_lt_asym null null h = cc
cell_lt_asym null (int n) h = refl
cell_lt_asym null (text t) h = refl
cell_lt_asym (int m) null h = cc
cell_lt_asym (int m) (int n) h = ground arith
cell_lt_asym (int m) (text t) h = refl
cell_lt_asym (text s) null h = cc
cell_lt_asym (text s) (int n) h = cc
cell_lt_asym (text s) (text t) h = codes_lt_asym (codes s) (codes t) h

unfoldable pub cells_lt : List Cell → List Cell → Bool
unfolding cell_lt
cells_lt [] [] = false
cells_lt [] (d ∷ t) = true
cells_lt (c ∷ s) [] = false
cells_lt (c ∷ s) (d ∷ t) =
    let rest = cells_lt s t in if cell_lt c d then true else if cell_lt d c then false else rest

pub cells_lt_asym : (s t : List Cell) → cells_lt s t ≡ true → cells_lt t s ≡ false
unfolding cells_lt
cells_lt_asym [] [] h = cc
cells_lt_asym [] (d ∷ t) h = refl
cells_lt_asym (c ∷ s) [] h = cc
cells_lt_asym (c ∷ s) (d ∷ t) h =
    ground (arith, cells_lt_asym s t, cell_lt_asym c d, cell_lt_asym d c)
