-- ===== src/Routing/Target/Domain.antt =====
-- The domains that `normalizeDomain` of internal/routing/routing.go accepts.
use wg.Prelude.{
  ℕ, ◌≤◌, ◌≡◌, ◌⊎◌, inl, inr, Bool, true, false, not, ◌||◌, List, [], ◌∷◌, All, ltb, ◌==◌,
  Bool-cases, if◌then◌else◌, ok, ◌>>◌, fail_if, arith,
}
use wg.Text.{
  Text, Unicode, is_empty, trim_space, to_lower, has_dot, trim_dot, byte_length, on_first, split,
}
use wg.Routing.Target.{
  is_domain_char, all_chars, last_of, good_label, all_labels, normalize_domain, invalid_target,
}

-- A small letter, a digit, a hyphen or a dot.
abbrev pub IsDomainChar : ℕ → Type 0
IsDomainChar c = ((b'a' ≤ c) × (c ≤ b'z')) ⊎ ((b'0' ≤ c) × (c ≤ b'9')) ⊎ (c ≡ b'-') ⊎ (c ≡ b'.')

-- A label of a domain is not empty, has 63 bytes at most, and no hyphen at its ends.
abbrev pub IsLabel : Text → Type 0
IsLabel [] = true ≡ false
IsLabel (c ∷ s) =
    (byte_length (c ∷ s) ≤ 63) × ((c == b'-') ≡ false) × ((last_of c s == b'-') ≡ false)

pub record IsDomain (d : Text) : Type 0 where
  pub short : byte_length d ≤ 253
  pub chars : All IsDomainChar d
  pub labels : All IsLabel (split b'.' d)

good_parts : (l : Text) → good_label l ≡ true → IsLabel l × (all_chars is_domain_char l ≡ true)
unfolding good_label
good_parts [] h = cc
good_parts (c ∷ s) h = ground arith

abbrev HasChars : Text → Type 0
HasChars l = all_chars is_domain_char l ≡ true

all_good_parts : (ls : List Text) → all_labels ls ≡ true → All IsLabel ls × All HasChars ls
all_good_parts [] h = (tt, tt)
all_good_parts (l ∷ ls) h =
    let good : good_label l ≡ true = ground arith in
    let (a, b) = good_parts l good in
    let (as', bs) = all_good_parts ls (ground arith) in ((a, as'), (b, bs))

first_chars :
    (c : ℕ) (ls : List Text)
    → All HasChars (on_first c ls)
    → (is_domain_char c ≡ true) × All HasChars ls
first_chars c [] (h, hs) = (ground arith, tt)
first_chars c (l ∷ ls) (h, hs) = (ground arith, (ground arith, hs))

split_chars : (s : Text) → All HasChars (split b'.' s) → All IsDomainChar s
unfolding split
split_chars [] h = tt
split_chars (c ∷ s) h = elim (Bool-cases (c == b'.')) [
  | inl dot ↦ (inr (inr (inr (ground arith))), split_chars s (rw dot at h).1)
  | inr plain ↦
      let (char, rest) = first_chars c (split b'.' s) (rw plain at h) in
      (ground arith, split_chars s rest)
]

checks :
    (v d : Text) (ascii : Bool)
    → (fail_if (is_empty v || ltb 253 (byte_length v) || has_dot v) invalid_target
        >> (fail_if (not ascii) invalid_target
            >> (fail_if (not (all_labels (split b'.' v))) invalid_target >> ok v)))
      ≡ ok d
    → (byte_length v ≤ 253) × (all_labels (split b'.' v) ≡ true) × (v ≡ d)
checks v d ascii h = ground arith

pub normalize_domain-IsDomain :
    (u : Unicode) (raw d : Text) → normalize_domain u raw ≡ ok d → IsDomain d
unfolding normalize_domain
normalize_domain-IsDomain u raw d h =
    let lowered = to_lower u (trim_space raw) in
    let value = if has_dot lowered then trim_dot lowered else lowered in
    let (short, good, same) = checks value d _ h in
    let (labels, chars) = all_good_parts _ good in
    let domain : IsDomain value = record {
      short = short;
      chars = split_chars value chars;
      labels = labels;
    } in
    rw same at domain
