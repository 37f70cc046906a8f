-- ===== src/Session/Replay/History.antt =====
-- The promise of the replay window of internal/session/replay.go, in terms of the packet numbers
-- accepted so far, and its relation to the bitmap.
use Prim.Native.Nat.{max, bit_and}
use native.Mathlib.Decide.{ℕ_discrete, dec_lt, dec_le}
use native.Mathlib.Nat.{one-le-pow}
use wg.Prelude.{
  ℕ, ◌-◌, ◌/◌, ◌%◌, ◌^◌, ◌≤◌, ◌<◌, ◌≡◌, ◌≢◌, refl, ◌∙◌, ap, ap₂, List, [], ◌∷◌, Bool, true, false,
  Option, none, some, ltb, leb, ◌==◌, if◌then◌else◌, length, get_or, set, arith, get_or-set_self,
  get_or-set_ne, ◌&&◌, ◌||◌, not, le→ltb,
}
use wg.Prelude.Bits.{bit_at, bit_and-two-pow, bit_at-two-pow_self, bit_at-two-pow_ne}
use wg.Session.Replay.{
  replay_duplicate, replay_too_old, ReplayError, ReplayWindow, shift_locked, set_bit,
  replay_window_size,
}
use wg.Session.Replay.Marks.{
  set-IsBitmap, mark, IsBitmap, mark-lt, mark-set_bit_self, mark-set_bit_ne, set_bit-IsBitmap,
  shift_locked-IsBitmap, mark-shift_locked,
}

unfoldable pub member : ℕ → List ℕ → Bool
member x [] = false
member x (y ∷ ys) = x == y || member x ys

-- The largest number of a history; 0 for the empty one.
unfoldable pub top : List ℕ → ℕ
top [] = 0
top (x ∷ xs) = max x (top xs)

abbrev pub is_nil : List ℕ → Bool
is_nil [] = true
is_nil (x ∷ xs) = false

-- What the window has to answer to `pn` after the numbers of `h` were accepted.
unfoldable pub judge : List ℕ → ℕ → Option ReplayError
judge h pn =
    if is_nil h || ltb (top h) pn
    then none
    else if leb replay_window_size (top h - pn)
    then some (record { kind = replay_too_old; packet_number = pn; highest = top h })
    else if member pn h
    then some (record { kind = replay_duplicate; packet_number = pn; highest = top h })
    else none

abbrev pub remember_if : Option ReplayError → List ℕ → ℕ → List ℕ
remember_if none h pn = pn ∷ h
remember_if (some e) h pn = h

unfoldable pub remember : List ℕ → ℕ → List ℕ
remember h pn = remember_if (judge h pn) h pn

-- Mark `d` below the highest number `t` stands for the membership of `t - d`.
abbrev pub seen : List ℕ → ℕ → ℕ → ℕ
seen h t d = if leb d t && member (t - d) h then 1 else 0

pub record Refines (h : List ℕ) (w : ReplayWindow) : Type 0 where
  pub started : w.initialized ≡ not (is_nil h)
  pub highest_is_top : w.highest ≡ top h
  pub bitmap_valid : IsBitmap w.bitmap
  pub marks : (d : ℕ) → d < 2048 → mark w.bitmap d ≡ seen h (top h) d

pub member-le-top : (x : ℕ) (h : List ℕ) → member x h ≡ true → x ≤ top h
unfolding member top
member-le-top x [] e = cc
member-le-top x (y ∷ ys) e = ground (arith, member-le-top x ys)

-- The first number: the marks were empty, and mark 0 is set.
mark_one :
    (bitmap : List ℕ) (d : ℕ)
    → length bitmap ≡ 32
    → mark (set bitmap 0 1) d ≡ (if d == 0 then 1 else if ltb d 64 then 0 else mark bitmap d)
mark_one bitmap d n = elim (dec_lt d 64) [
  | yes low ↦ elim (ℕ_discrete d 0) [
    | yes z ↦ rw (z, get_or-set_self bitmap 0 1 0 (omega arith)) (bit_at-two-pow_self 0)
    | no nz ↦
        ap₂ bit_at {x = d % 64} {y = d} (omega arith) (
          ap (λ (i : ℕ). get_or (set bitmap 0 1) i 0) {x = d / 64} {y = 0} (omega arith)
          ∙ get_or-set_self bitmap 0 1 0 (omega arith))
        ∙ bit_at-two-pow_ne d 0 nz
        ∙ ground arith
  ]
  | no high ↦ rw (get_or-set_ne bitmap 0 (d / 64) 1 0 (λ e. omega arith)) (ground arith)
]

-- Moving the marks up by `pn - t`, where `pn` is above the highest `t`, and setting mark 0.
moved-seen :
    (h : List ℕ) (t pn d : ℕ)
    → t ≡ top h
    → t < pn
    → d ≢ 0
    → (if ltb d (pn - t) then 0 else seen h t (d - (pn - t))) ≡ seen (pn ∷ h) pn d
unfolding member
moved-seen h t pn d e above nz = elim (dec_lt d (pn - t)) [
  | yes fresh ↦ ground (arith, member-le-top (pn - d) h)
  | no old ↦ elim (dec_le d pn) [
    | yes inside ↦
        let same : t - (d - (pn - t)) ≡ pn - d = omega arith in
        rw (same, le→ltb d (pn - t) (omega arith)) (ground arith)
    | no outside ↦ ground arith
  ]
]

-- Setting the mark of a number that is not above the highest.
joined-seen : (h : List ℕ) (t pn d : ℕ) → pn ≤ t → d ≢ t - pn → seen h t d ≡ seen (pn ∷ h) t d
unfolding member
joined-seen h t pn d le ne = ground arith

module _ (h : List ℕ) (w : ReplayWindow) (r : Refines h w) (pn : ℕ) where
  pub first-Refines :
      h ≡ []
      → Refines (pn ∷ []) (record { initialized = true; highest = pn; bitmap = set w.bitmap 0 1 })
  first-Refines e = record {
    started = refl;
    highest_is_top = unfold top in omega arith;
    bitmap_valid = set-IsBitmap w.bitmap r.bitmap_valid 0 1 (omega arith) (omega arith);
    marks = λ d small. elim (ℕ_discrete d 0) [
      | yes z ↦ rw z (mark_one w.bitmap 0 r.bitmap_valid.count ∙ unfold top member in ground arith)
      | no nz ↦
          mark_one w.bitmap d r.bitmap_valid.count ∙ unfold top member in ground (arith, r.marks d)
    ];
  }

  -- A number above the highest moves the window.
  above-marks :
      top h < pn
      → (d : ℕ) → d < 2048
      → mark (set_bit (shift_locked w.bitmap (pn - w.highest)) 0 1) d ≡ seen (pn ∷ h) pn d
  above-marks above d small = elim (ℕ_discrete d 0) [
    | yes z ↦ rw z (
        mark-set_bit_self _ (shift_locked-IsBitmap w.bitmap r.bitmap_valid _) 0 (omega arith)
        ∙ unfold member in ground arith)
    | no nz ↦
        mark-set_bit_ne _ (shift_locked-IsBitmap w.bitmap r.bitmap_valid _) 0 d (omega arith) nz
        ∙ mark-shift_locked w.bitmap r.bitmap_valid (pn - w.highest) d small
        ∙ rw (r.highest_is_top, r.marks (d - (pn - top h)) (omega arith))
            (moved-seen h (top h) pn d refl above nz)
  ]

  pub above-Refines :
      top h < pn
      → w.initialized ≡ true
      → Refines
          (pn ∷ h)
          (record w { highest = pn; bitmap = set_bit (shift_locked w.bitmap (pn - w.highest)) 0 1 })
  above-Refines above i = record {
    started = i;
    highest_is_top = unfold top in omega arith;
    bitmap_valid =
        set_bit-IsBitmap _ (shift_locked-IsBitmap w.bitmap r.bitmap_valid _) 0 (omega arith);
    marks = λ d small.
        above-marks above d small ∙ ap (λ (t : ℕ). seen (pn ∷ h) t d) (unfold top in omega arith);
  }

  -- A number inside the window sets its mark.
  pub inside-Refines :
      pn ≤ top h
      → top h - pn < 2048
      → w.initialized ≡ true
      → Refines (pn ∷ h) (record w {
        bitmap = set_bit w.bitmap ((w.highest - pn) / 64) (2 ^ ((w.highest - pn) % 64));
      })
  inside-Refines le near i = record {
    started = i;
    highest_is_top = unfold top in omega (arith, r.highest_is_top);
    bitmap_valid =
        set_bit-IsBitmap w.bitmap r.bitmap_valid (w.highest - pn) (omega (arith, r.highest_is_top));
    marks = λ d small. elim (ℕ_discrete d (w.highest - pn)) [
      | yes same ↦ rw same (
          mark-set_bit_self w.bitmap r.bitmap_valid (w.highest - pn) (omega arith)
          ∙ unfold top member in ground (arith, r.highest_is_top))
      | no other ↦
          mark-set_bit_ne w.bitmap r.bitmap_valid (w.highest - pn) d
            (omega (arith, r.highest_is_top)) other
          ∙ r.marks d small
          ∙ joined-seen h (top h) pn d le (λ e. other (omega (arith, r.highest_is_top)))
          ∙ ap (λ (t : ℕ). seen (pn ∷ h) t d) (unfold top in omega arith)
    ];
  }

-- The test of the bitmap reads the mark.
pub test-mark :
    (bitmap : List ℕ) (d : ℕ)
    → (bit_and (get_or bitmap (d / 64) 0) (2 ^ (d % 64)) == 0) ≡ (mark bitmap d == 0)
test-mark bitmap d = elim (ℕ_discrete (mark bitmap d) 0) [
  | yes z ↦ rw (bit_and-two-pow, z) (ground arith)
  | no nz ↦
      let one : mark bitmap d ≡ 1 = omega (arith, mark-lt bitmap d) in
      rw (bit_and-two-pow, one) (ground (arith, one-le-pow (d % 64) 2))
]
