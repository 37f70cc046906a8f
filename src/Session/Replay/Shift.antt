-- ===== src/Session/Replay/Shift.antt =====
-- What `shiftLocked` of internal/session/replay.go does to each word of the bitmap.
use wg.Prelude.{
  ℕ, zero, suc, ◌-◌, ◌≤◌, ◌<◌, ◌≡◌, refl, ◌∙◌, List, ltb, if◌then◌else◌, length, get_or, arith,
  get_or-set_self, get_or-set_ne, length-set,
}
use native.Mathlib.Decide.{ℕ_discrete}
use native.Mathlib.Nat.{le_refl}
use wg.Session.Replay.{shifted_word, shift_word, shift_loop}

module _ (previous : List ℕ) (whole_words partial_bits : ℕ) where
  length-shift_word :
      (n : ℕ) (bitmap : List ℕ)
      → length (shift_word previous whole_words partial_bits n bitmap) ≡ length bitmap
  unfolding shift_word
  length-shift_word n bitmap =
      ground (arith, length-set bitmap n (shifted_word previous partial_bits (n - whole_words)))

  shift_word_self :
      (n : ℕ) (bitmap : List ℕ)
      → n < length bitmap
      → get_or (shift_word previous whole_words partial_bits n bitmap) n 0 ≡ (
          if ltb n whole_words
          then get_or bitmap n 0
          else shifted_word previous partial_bits (n - whole_words))
  unfolding shift_word
  shift_word_self n bitmap h =
      ground
        (arith, get_or-set_self bitmap n (shifted_word previous partial_bits (n - whole_words)) 0)

  shift_word_ne :
      (n : ℕ) (bitmap : List ℕ) (i : ℕ)
      → (n ≡ i → ⊥)
      → get_or (shift_word previous whole_words partial_bits n bitmap) i 0 ≡ get_or bitmap i 0
  unfolding shift_word
  shift_word_ne n bitmap i h =
      ground
        (arith, get_or-set_ne bitmap n i (shifted_word previous partial_bits (n - whole_words)) 0 h)

  pub length-shift_loop :
      (n : ℕ) (bitmap : List ℕ)
      → length (shift_loop previous whole_words partial_bits n bitmap) ≡ length bitmap
  unfolding shift_loop
  length-shift_loop zero bitmap = refl
  length-shift_loop (suc n) bitmap =
      length-shift_loop n (shift_word previous whole_words partial_bits n bitmap)
      ∙ length-shift_word n bitmap

  -- The words that the loop does not come to stay.
  shift_loop_above :
      (n : ℕ) (bitmap : List ℕ) (i : ℕ)
      → n ≤ i
      → get_or (shift_loop previous whole_words partial_bits n bitmap) i 0 ≡ get_or bitmap i 0
  unfolding shift_loop
  shift_loop_above zero bitmap i h = refl
  shift_loop_above (suc n) bitmap i h =
      shift_loop_above n (shift_word previous whole_words partial_bits n bitmap) i (omega arith)
      ∙ shift_word_ne n bitmap i (λ e. omega arith)

  -- Word `i` is written once, when the loop comes to it.
  pub shift_loop_word :
      (n : ℕ) (bitmap : List ℕ) (i : ℕ)
      → n ≤ length bitmap
      → i < n
      → get_or (shift_loop previous whole_words partial_bits n bitmap) i 0 ≡ (
          if ltb i whole_words
          then get_or bitmap i 0
          else shifted_word previous partial_bits (i - whole_words))
  unfolding shift_loop
  shift_loop_word zero bitmap i h p = absurd (omega arith)
  shift_loop_word (suc n) bitmap i h p = elim (ℕ_discrete i n) [
    | yes e ↦ rw (e, shift_loop_above n _ n (le_refl n)) (shift_word_self n bitmap h)
    | no d ↦
        shift_loop_word n (shift_word previous whole_words partial_bits n bitmap) i
          (omega (arith, length-shift_word n bitmap)) (omega arith)
        ∙ rw (shift_word_ne n bitmap i (λ e. omega arith))
  ]
