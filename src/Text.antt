-- ===== src/Text.antt =====
-- What the program uses of Go's `strings` and `unicode`. A text is the list of its code points; a
-- byte that is not part of an encoding counts as U+FFFD.
pub mod Ascii
use wg.Prelude.{
  ℕ, zero, suc, ◌+◌, ◌-◌, Bool, true, false, ◌&&◌, ◌||◌, List, [], ◌∷◌, ltb, leb, ◌==◌,
  if◌then◌else◌, map,
}
use wg.Prelude.Equality.{Equality, ℕ_equality, list_equality}

abbrev pub Text : Type 0
Text = List ℕ

instance abbrev pub text_equality : Equality Text
text_equality = list_equality

-- `unicode.IsSpace`
unfoldable pub is_space : ℕ → Bool
is_space c =
    (leb 9 c && leb c 13)
    || c == 0x20
    || c == 0x85
    || c == 0xA0
    || c == 0x1680
    || (leb 0x2000 c && leb c 0x200A)
    || c == 0x2028
    || c == 0x2029
    || c == 0x202F
    || c == 0x205F
    || c == 0x3000

abbrev pub is_empty : Text → Bool
is_empty [] = true
is_empty (c ∷ cs) = false

unfoldable pub trim_left : Text → Text
trim_left [] = []
trim_left (c ∷ cs) = let rest = trim_left cs in if is_space c then rest else c ∷ cs

unfoldable pub trim_right : Text → Text
trim_right [] = []
trim_right (c ∷ cs) =
    let rest = trim_right cs in if is_space c && is_empty rest then [] else c ∷ rest

unfoldable pub trim_space : Text → Text
trim_space s = trim_right (trim_left s)

-- The mappings of single code points above ASCII, which come from the tables of Unicode.
pub record Unicode : Type 0 where
  pub lower_rune : ℕ → ℕ
  pub upper_rune : ℕ → ℕ

abbrev pub lower_char : Unicode → ℕ → ℕ
lower_char u c =
    if leb 0x41 c && leb c 0x5A then c + 32 else if ltb c 128 then c else u.lower_rune c

abbrev pub upper_char : Unicode → ℕ → ℕ
upper_char u c =
    if leb 0x61 c && leb c 0x7A then c - 32 else if ltb c 128 then c else u.upper_rune c

unfoldable pub to_lower : Unicode → Text → Text
to_lower u s = map (lower_char u) s

unfoldable pub to_upper : Unicode → Text → Text
to_upper u s = map (upper_char u) s

-- `strings.HasSuffix(s, ".")` and `strings.TrimSuffix(s, ".")`
unfoldable pub has_dot : Text → Bool
has_dot [] = false
has_dot (c ∷ []) = c == 0x2E
has_dot (c ∷ d ∷ s) = has_dot (d ∷ s)

unfoldable pub trim_dot : Text → Text
trim_dot [] = []
trim_dot (c ∷ []) = if c == 0x2E then [] else c ∷ []
trim_dot (c ∷ d ∷ s) = c ∷ trim_dot (d ∷ s)

-- The bytes of the encoding.
abbrev pub rune_width : ℕ → ℕ
rune_width c = if ltb c 0x80 then 1 else if ltb c 0x800 then 2 else if ltb c 0x10000 then 3 else 4

unfoldable pub byte_length : Text → ℕ
byte_length [] = 0
byte_length (c ∷ s) = rune_width c + byte_length s

unfoldable pub contains_rune : ℕ → Text → Bool
contains_rune c [] = false
contains_rune c (d ∷ s) = d == c || contains_rune c s

abbrev pub on_first : ℕ → List Text → List Text
on_first c [] = (c ∷ []) ∷ []
on_first c (s ∷ ss) = (c ∷ s) ∷ ss

-- `strings.Split` at one code point: the pieces, one more than there are separators.
unfoldable pub split : ℕ → Text → List Text
split sep [] = [] ∷ []
split sep (c ∷ s) = let rest = split sep s in if c == sep then [] ∷ rest else on_first c rest
