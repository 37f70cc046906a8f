-- ===== src/Codec/Utf8.antt =====
-- `utf8.Valid` of Go's standard library, by its documented meaning: the encodings of RFC 3629, so
-- without overlong forms, surrogates and numbers above 0x10FFFF.
use wg.Prelude.{ℕ, ◌-◌, Bool, ◌&&◌, List, [], ◌∷◌, leb, ◌==◌, if◌then◌else◌}

abbrev within : ℕ → ℕ → ℕ → Bool
within low high b = leb low b && leb b high

-- A state of the decoder: how many bytes of the character are left, and the bounds of the next one.
pub record Utf8State : Type 0 where
  pub left : ℕ
  pub low : ℕ
  pub high : ℕ

abbrev continued : ℕ → Utf8State
continued n = record { left = n; low = 0x80; high = 0xBF }

-- What follows a first byte; `none` of them where `low` is above `high`.
unfoldable pub after_first : ℕ → Utf8State
after_first b =
    if leb b 0x7F
    then continued 0
    else if within 0xC2 0xDF b
    then continued 1
    else if b == 0xE0
    then record { left = 2; low = 0xA0; high = 0xBF }
    else if b == 0xED
    then record { left = 2; low = 0x80; high = 0x9F }
    else if within 0xE1 0xEF b
    then continued 2
    else if b == 0xF0
    then record { left = 3; low = 0x90; high = 0xBF }
    else if b == 0xF4
    then record { left = 3; low = 0x80; high = 0x8F }
    else if within 0xF1 0xF3 b
    then continued 3
    else record { left = 1; low = 1; high = 0 }

unfoldable pub valid_from : Utf8State → List ℕ → Bool
valid_from s [] = s.left == 0
valid_from s (b ∷ bs) =
    let first = valid_from (after_first b) bs in
    let more = valid_from (continued (s.left - 1)) bs in
    if s.left == 0 then first else within s.low s.high b && more

unfoldable pub utf8_valid : List ℕ → Bool
utf8_valid bs = valid_from (continued 0) bs
