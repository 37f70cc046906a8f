-- ===== src/Session/Replay/Marks.antt =====
-- The bitmap of the replay window of internal/session/replay.go as a row of marks: mark `d` stands
-- for the packet number that is `d` below the highest.
use native.Mathlib.Decide.{ℕ_discrete, dec_lt}
use wg.Prelude.{
  set, true, false, get_or-le, leb, ℕ, ◌+◌, ◌-◌, ◌*◌, ◌/◌, ◌%◌, ◌^◌, ◌≤◌, ◌<◌, ◌≡◌, ◌≢◌, refl, ◌∙◌,
  ap, ap₂, List, ltb, leb, ◌==◌, if◌then◌else◌, length, get_or, replicate, arith, get_or-set_self,
  get_or-set_ne, length-set, get_or-replicate, ◌&&◌, not, Bool-cases, inl, inr, ltb→le, le→ltb,
  lt→ltb, leb→le, leb→lt,
}
use native.Mathlib.Nat.{lt_of_le_of_lt, div-le_self}
use wg.Prelude.Bits.{
  bit_at, bit_at-set_self, bit_at-set_ne, bit_at-shl, bit_at-shl_low, bit_at-shr, bit_at-mod,
  bit_at-eq-zero_of_lt, bit_or-lt, two-pow-lt, bit_at-bit_or, bit_at-zero, bit_at-lt,
}
use wg.Session.Replay.{shifted_word, shift_loop, shift_locked, set_bit, replay_word_count}
use wg.Session.Replay.Shift.{length-shift_loop, shift_loop_word}

abbrev pub mark : List ℕ → ℕ → ℕ
mark bitmap d = bit_at (d % 64) (get_or bitmap (d / 64) 0)

-- The bitmap has its length, and each entry is a uint64.
pub record IsBitmap (bitmap : List ℕ) : Type 0 where
  pub count : length bitmap ≡ replay_word_count
  pub word : (i : ℕ) → get_or bitmap i 0 < 2 ^ 64

pub mark-lt : (bitmap : List ℕ) (d : ℕ) → mark bitmap d < 2
mark-lt bitmap d = bit_at-lt (d % 64) (get_or bitmap (d / 64) 0)

pub zeros-IsBitmap : IsBitmap (replicate 32 0)
zeros-IsBitmap = record {
  count = refl;
  word = λ i. rw (get_or-replicate {A = ℕ} 32 i 0) (omega arith);
}

pub mark-zeros : (d : ℕ) → mark (replicate 32 0) d ≡ 0
mark-zeros d = rw (get_or-replicate {A = ℕ} 32 (d / 64) 0) (bit_at-zero (d % 64))

module _ (bitmap : List ℕ) (b : IsBitmap bitmap) where
  pub mark-set_bit_self : (d : ℕ) → d < 2048 → mark (set_bit bitmap (d / 64) (2 ^ (d % 64))) d ≡ 1
  unfolding set_bit
  mark-set_bit_self d h =
      rw (get_or-set_self bitmap (d / 64) _ 0 (omega (arith, b.count))) (bit_at-set_self (d % 64) _)

  pub mark-set_bit_ne :
      (d e : ℕ) → d < 2048 → e ≢ d → mark (set_bit bitmap (d / 64) (2 ^ (d % 64))) e ≡ mark bitmap e
  unfolding set_bit
  mark-set_bit_ne d e h ne = elim (ℕ_discrete (d / 64) (e / 64)) [
    | yes same ↦
        rw (← same, get_or-set_self bitmap (d / 64) _ 0 (omega (arith, b.count)))
          (bit_at-set_ne (e % 64) (d % 64) _ (λ k. ne (omega arith)))
    | no other ↦ rw (get_or-set_ne bitmap (d / 64) (e / 64) _ 0 other)
  ]

  pub set-IsBitmap : (i v : ℕ) → i < 32 → v < 2 ^ 64 → IsBitmap (set bitmap i v)
  set-IsBitmap i v h fits = record {
    count = length-set bitmap i v ∙ b.count;
    word = λ j. elim (ℕ_discrete i j) [
      | yes same ↦ rw (← same, get_or-set_self bitmap i v 0 (omega (arith, b.count))) fits
      | no other ↦ rw (get_or-set_ne bitmap i j v 0 other) (b.word j)
    ];
  }

  pub set_bit-IsBitmap : (d : ℕ) → d < 2048 → IsBitmap (set_bit bitmap (d / 64) (2 ^ (d % 64)))
  unfolding set_bit
  set_bit-IsBitmap d h =
      set-IsBitmap (d / 64) _ (omega arith)
        (bit_or-lt 64 _ _ (b.word (d / 64)) (two-pow-lt 64 (d % 64) (omega arith)))

  -- The digit at `k` of a shifted word comes from the word `source`, or from the one below it.
  shifted_word_high :
      (p source k : ℕ)
      → p ≤ k
      → k < 64
      → bit_at k (shifted_word bitmap p source) ≡ bit_at (k - p) (get_or bitmap source 0)
  unfolding shifted_word
  shifted_word_high p source k h l = elim (Bool-cases (not (p == 0) && ltb 0 source)) [
    | inl both ↦ rw (both, bit_at-bit_or, moved, gone) (omega arith)
    | inr one ↦ rw (one, moved)
  ]
    where
      moved :
          bit_at k (get_or bitmap source 0 * 2 ^ p % 2 ^ 64)
          ≡ bit_at (k - p) (get_or bitmap source 0)
      moved =
          bit_at-mod 64 k _ l
          ∙ ap (λ (j : ℕ). bit_at j (get_or bitmap source 0 * 2 ^ p)) (omega arith)
          ∙ bit_at-shl p (k - p) (get_or bitmap source 0)

      gone : bit_at k (get_or bitmap (source - 1) 0 / 2 ^ (64 - p)) ≡ 0
      gone =
          bit_at-shr (64 - p) k _
          ∙ bit_at-eq-zero_of_lt 64 (k + (64 - p)) _ (b.word (source - 1)) (omega arith)

  module _ (p source k : ℕ) (h : k < p) (l : p < 64) where
    low_empty : bit_at k (get_or bitmap source 0 * 2 ^ p % 2 ^ 64) ≡ 0
    low_empty = bit_at-mod 64 k _ (omega arith) ∙ bit_at-shl_low p k _ h

    shifted_word_first : source ≡ 0 → bit_at k (shifted_word bitmap p source) ≡ 0
    unfolding shifted_word
    shifted_word_first e = rw alone low_empty
      where
        alone : (not (p == 0) && ltb 0 source) ≡ false
        alone = ground arith

    shifted_word_low :
        0 < source
        → bit_at k (shifted_word bitmap p source)
          ≡ bit_at (k + (64 - p)) (get_or bitmap (source - 1) 0)
    unfolding shifted_word
    shifted_word_low e = rw (both, bit_at-bit_or, low_empty, bit_at-shr) (omega arith)
      where
        both : (not (p == 0) && ltb 0 source) ≡ true
        both = ground arith

  shifted : ℕ → List ℕ
  shifted advance = shift_loop bitmap (advance / 64) (advance % 64) 32 (replicate 32 0)

  -- The marks of the bitmap move up by `advance`, and the lowest are empty.
  module _ (advance d : ℕ) (in_window : d < 2048) (small : advance < 2048) where
    shifted_entry : get_or (shifted advance) (d / 64) 0 ≡ (
        if ltb (d / 64) (advance / 64)
        then 0
        else shifted_word bitmap (advance % 64) (d / 64 - advance / 64))
    unfolding shifted
    shifted_entry =
        shift_loop_word bitmap (advance / 64) (advance % 64) 32 (replicate 32 0) (d / 64)
          (omega arith) (omega arith)
        ∙ ap
            (λ (z : ℕ).
              if ltb (d / 64) (advance / 64)
              then z
              else shifted_word bitmap (advance % 64) (d / 64 - advance / 64))
            (get_or-replicate 32 (d / 64) 0)

    mark_below : d < advance → mark (shifted advance) d ≡ 0
    mark_below h = elim (Bool-cases (ltb (d / 64) (advance / 64))) [
      | inl t ↦ rw (shifted_entry, t) (bit_at-zero (d % 64))
      | inr f ↦
          rw (shifted_entry, f)
            (shifted_word_first (advance % 64) _ (d % 64) (omega (arith, ltb→le _ _ f))
              (omega arith) (omega (arith, ltb→le _ _ f)))
    ]

    mark_above : advance ≤ d → mark (shifted advance) d ≡ mark bitmap (d - advance)
    mark_above h = elim (dec_lt (d % 64) (advance % 64)) [
      | yes lt ↦
          rw (shifted_entry, le→ltb (d / 64) (advance / 64) (omega arith))
            (shifted_word_low (advance % 64) _ (d % 64) lt (omega arith) (omega arith)
              ∙ ap₂ (λ (k i : ℕ). bit_at k (get_or bitmap i 0)) (omega arith) (omega arith))
      | no ge ↦
          rw (shifted_entry, le→ltb (d / 64) (advance / 64) (omega arith))
            (shifted_word_high (advance % 64) _ (d % 64) (omega arith) (omega arith)
              ∙ ap₂ (λ (k i : ℕ). bit_at k (get_or bitmap i 0)) (omega arith) (omega arith))
    ]

  shifted_word-lt : (p source : ℕ) → shifted_word bitmap p source < 2 ^ 64
  unfolding shifted_word
  shifted_word-lt p source = elim (Bool-cases (not (p == 0) && ltb 0 source)) [
    | inl both ↦ rw both (
        bit_or-lt 64 _ _ (omega arith)
          (lt_of_le_of_lt (div-le_self _ (2 ^ (64 - p))) (b.word (source - 1))))
    | inr one ↦ rw one (omega arith)
  ]

  shifted-IsBitmap : (advance : ℕ) → IsBitmap (shifted advance)
  unfolding shifted
  shifted-IsBitmap advance = record {
    count = length-shift_loop bitmap (advance / 64) (advance % 64) 32 (replicate 32 0);
    word = λ i. elim (dec_lt i 32) [
      | yes inside ↦
          rw
            (shift_loop_word bitmap (advance / 64) (advance % 64) 32 (replicate 32 0) i
              (omega arith) inside)
            (entry i)
      | no outside ↦
          rw
            (get_or-le (shift_loop bitmap (advance / 64) (advance % 64) 32 (replicate 32 0)) i 0
              (rw (length-shift_loop bitmap (advance / 64) (advance % 64)) (omega arith)))
            (omega arith)
    ];
  }
    where
      entry :
          (i : ℕ)
          → (if ltb i (advance / 64)
              then get_or (replicate 32 0) i 0
              else shifted_word bitmap (advance % 64) (i - advance / 64))
            < 2 ^ 64
      entry i = elim (Bool-cases (ltb i (advance / 64))) [
        | inl t ↦ rw (t, get_or-replicate {A = ℕ} 32 i 0) (omega arith)
        | inr f ↦ rw f (shifted_word-lt (advance % 64) (i - advance / 64))
      ]

  pub shift_locked-IsBitmap : (advance : ℕ) → IsBitmap (shift_locked bitmap advance)
  unfolding shift_locked shifted
  shift_locked-IsBitmap advance = elim (Bool-cases (leb 2048 advance)) [
    | inl far ↦ rw far zeros-IsBitmap
    | inr near ↦ rw near (shifted-IsBitmap advance)
  ]

  pub mark-shift_locked :
      (advance d : ℕ)
      → d < 2048
      → mark (shift_locked bitmap advance) d
        ≡ (if ltb d advance then 0 else mark bitmap (d - advance))
  unfolding shift_locked shifted
  mark-shift_locked advance d h = elim (Bool-cases (leb 2048 advance)) [
    | inl far ↦
        rw
          (
            far,
            get_or-replicate {A = ℕ} 32 (d / 64) 0,
            lt→ltb d advance (omega (arith, leb→le _ _ far)),
          )
          (bit_at-zero (d % 64))
    | inr near ↦
        let small : advance < 2048 = omega (arith, leb→lt _ _ near) in
        rw near (elim (dec_lt d advance) [
          | yes lt ↦ rw (lt→ltb d advance lt) (mark_below advance d h small lt)
          | no ge ↦ rw (le→ltb d advance (omega arith)) (mark_above advance d h small (omega arith))
        ])
  ]
