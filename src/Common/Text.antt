-- ===== src/Common/Text.antt =====
-- Texts as the standard library of Rust treats them: ASCII case, white space, splitting.
-- A text is the native `String`; where the code walks characters, the list of its code points.
use Prim.Native.Char.{Char, code}
use Prim.Native.String.{String}
use stophammer.Common.{
  ℕ, ◌+◌, ◌≡◌, refl, ◌↔◌, Bool, true, false, ◌&&◌, ◌||◌, List, [], ◌∷◌, arith, leb, ◌==◌, ==_iff,
  if◌then◌else◌,
}

abbrev pub codes : String → List ℕ
codes String.[] = []
codes (String.◌∷◌ c s) = code c ∷ codes s

-- `u8::to_ascii_lowercase`, on a code point: a letter A to Z moves, any other stays.
unfoldable pub to_ascii_lowercase : ℕ → ℕ
to_ascii_lowercase c = if leb b'A' c && leb c b'Z' then c + 32 else c

-- `str::to_ascii_lowercase`.
unfoldable pub lower_codes : String → List ℕ
unfolding to_ascii_lowercase
lower_codes String.[] = []
lower_codes (String.◌∷◌ c s) = to_ascii_lowercase (code c) ∷ lower_codes s

unfoldable pub codes_eq : List ℕ → List ℕ → Bool
codes_eq [] [] = true
codes_eq [] (d ∷ t) = false
codes_eq (c ∷ s) [] = false
codes_eq (c ∷ s) (d ∷ t) = (c == d) && codes_eq s t

pub codes_eq_iff : (s t : List ℕ) → (codes_eq s t ≡ true) ↔ (s ≡ t)
unfolding codes_eq
codes_eq_iff [] [] = (λ h. refl, λ h. refl)
codes_eq_iff [] (d ∷ t) = (λ h. cc, λ h. cc)
codes_eq_iff (c ∷ s) [] = (λ h. cc, λ h. cc)
codes_eq_iff (c ∷ s) (d ∷ t) = (
  λ h.
      let eq : c ≡ d = (==_iff c d).0 (ground arith) in
      let eqs : s ≡ t = (codes_eq_iff s t).0 (ground arith) in cc,
  λ h.
      let r : codes_eq s t ≡ true = (codes_eq_iff s t).1 (cc) in
      let q : (c == d) ≡ true = (==_iff c d).1 (cc) in ground arith,
)

-- `str::eq_ignore_ascii_case`.
unfoldable pub eq_ignore_ascii_case : String → String → Bool
unfolding lower_codes codes_eq
eq_ignore_ascii_case a b = codes_eq (lower_codes a) (lower_codes b)

-- `char::is_whitespace`.
abbrev pub is_white_space : ℕ → Bool
is_white_space c =
    (leb 9 c && leb c 13)
    || (c == 32
        || (c == 0x85
            || (c == 0xA0
                || (c == 0x1680
                    || ((leb 0x2000 c && leb c 0x200A)
                        || (c == 0x2028
                            || (c == 0x2029 || (c == 0x202F || (c == 0x205F || c == 0x3000)))))))))

abbrev pub is_empty : String → Bool
is_empty String.[] = true
is_empty (String.◌∷◌ c s) = false

unfoldable pub trim_start : String → String
trim_start String.[] = ""
trim_start (String.◌∷◌ c s) =
    let rest = trim_start s in if is_white_space (code c) then rest else String.◌∷◌ c s

unfoldable pub trim_end : String → String
trim_end String.[] = ""
trim_end (String.◌∷◌ c s) =
    let rest = trim_end s in
    if is_empty rest && is_white_space (code c) then "" else String.◌∷◌ c rest

-- `str::trim`.
unfoldable pub trim : String → String
unfolding trim_start trim_end
trim s = trim_end (trim_start s)

abbrev prepend : Char → List String → List String
prepend c [] = String.◌∷◌ c "" ∷ []
prepend c (w ∷ ws) = String.◌∷◌ c w ∷ ws

-- `str::split` at a character: a text without it is one piece.
unfoldable pub split : ℕ → String → List String
split sep String.[] = "" ∷ []
split sep (String.◌∷◌ c s) =
    let rest = split sep s in if code c == sep then "" ∷ rest else prepend c rest
