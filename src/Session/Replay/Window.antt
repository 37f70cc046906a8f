-- ===== src/Session/Replay/Window.antt =====
-- The replay window of internal/session/replay.go and the history of accepted packet numbers.
use native.Mathlib.Decide.{dec_lt}
use wg.Prelude.{
  ℕ, ◌-◌, ◌/◌, ◌%◌, ◌^◌, ◌≤◌, ◌<◌, ◌≡◌, refl, ◌∙◌, ap, List, [], ◌∷◌, true, none, some, leb, ◌==◌,
  if◌then◌else◌, arith, ◌&&◌, not, Bool-cases, inl, inr,
}
use wg.Session.Replay.{
  ReplayKind, replay_duplicate, replay_too_old, ReplayError, ReplayWindow, zero_window,
  shift_locked, set_bit, accept_authenticated,
}
use wg.Session.Replay.Marks.{mark, zeros-IsBitmap, mark-zeros}
use wg.Session.Replay.History.{
  member, top, judge, remember, Refines, first-Refines, above-Refines, inside-Refines, test-mark,
}

pub zero_window-Refines : Refines [] zero_window
unfolding zero_window top member
zero_window-Refines = record {
  started = refl;
  highest_is_top = refl;
  bitmap_valid = zeros-IsBitmap;
  marks = λ d small. mark-zeros d ∙ ground arith;
}

-- The window `w` after a number above the highest, and after one inside the window.
abbrev advanced : ReplayWindow → ℕ → ReplayWindow
advanced w pn = record w {
  highest = pn;
  bitmap = set_bit (shift_locked w.bitmap (pn - w.highest)) 0 1;
}

abbrev marked : ReplayWindow → ℕ → ReplayWindow
marked w pn = record w {
  bitmap = set_bit w.bitmap ((w.highest - pn) / 64) (2 ^ ((w.highest - pn) % 64));
}

abbrev refusal : ReplayKind → ReplayWindow → ℕ → ReplayError
refusal k w pn = record { kind = k; packet_number = pn; highest = w.highest }

module _ (w : ReplayWindow) (pn : ℕ) (i : w.initialized ≡ true) where
  accept-above : w.highest < pn → accept_authenticated w pn ≡ (advanced w pn, none)
  unfolding accept_authenticated
  accept-above above = ground arith

  accept-old :
      pn ≤ w.highest
      → 2048 ≤ w.highest - pn
      → accept_authenticated w pn ≡ (w, some (refusal replay_too_old w pn))
  unfolding accept_authenticated
  accept-old le far = ground arith

  accept-inside :
      pn ≤ w.highest
      → w.highest - pn < 2048
      → accept_authenticated w pn ≡ (
          if mark w.bitmap (w.highest - pn) == 0
          then (marked w pn, none)
          else (w, some (refusal replay_duplicate w pn)))
  unfolding accept_authenticated
  accept-inside le near = ground (arith, test-mark w.bitmap (w.highest - pn))

judge-above : (x : ℕ) (h : List ℕ) (pn : ℕ) → top (x ∷ h) < pn → judge (x ∷ h) pn ≡ none
unfolding judge
judge-above x h pn above = ground arith

judge-old :
    (x : ℕ) (h : List ℕ) (pn : ℕ)
    → pn ≤ top (x ∷ h)
    → 2048 ≤ top (x ∷ h) - pn
    → judge (x ∷ h) pn
      ≡ some (record { kind = replay_too_old; packet_number = pn; highest = top (x ∷ h) })
unfolding judge
judge-old x h pn le far = ground arith

judge-inside :
    (x : ℕ) (h : List ℕ) (pn : ℕ)
    → pn ≤ top (x ∷ h)
    → top (x ∷ h) - pn < 2048
    → judge (x ∷ h) pn ≡ (
        if member pn (x ∷ h)
        then some (record { kind = replay_duplicate; packet_number = pn; highest = top (x ∷ h) })
        else none)
unfolding judge
judge-inside x h pn le near = ground arith

abbrev Agrees : List ℕ → ReplayWindow → ℕ → Type 0
Agrees h w pn =
    Refines (remember h pn) (accept_authenticated w pn).0
    × ((accept_authenticated w pn).1 ≡ judge h pn)

module _ (x : ℕ) (h : List ℕ) (w : ReplayWindow) (pn : ℕ) (r : Refines (x ∷ h) w) where
  above-Agrees : top (x ∷ h) < pn → Agrees (x ∷ h) w pn
  unfolding remember
  above-Agrees above =
      rw (accept-above w pn r.started (omega (arith, r.highest_is_top)), judge-above x h pn above)
        (above-Refines (x ∷ h) w r pn above r.started, refl)

  old-Agrees : pn ≤ top (x ∷ h) → 2048 ≤ top (x ∷ h) - pn → Agrees (x ∷ h) w pn
  unfolding remember
  old-Agrees le far =
      rw
        (
          accept-old w pn r.started (omega (arith, r.highest_is_top))
              (omega (arith, r.highest_is_top)),
          judge-old x h pn le far,
        )
        (
          r,
          ap (λ t. some (record { kind = replay_too_old; packet_number = pn; highest = t }))
              r.highest_is_top,
        )

  -- The mark of a number inside the window is its membership.
  mark_of :
      pn ≤ top (x ∷ h)
      → top (x ∷ h) - pn < 2048
      → (mark w.bitmap (w.highest - pn) == 0) ≡ not (member pn (x ∷ h))
  mark_of le near =
      ap (λ (d : ℕ). mark w.bitmap (d - pn) == 0) r.highest_is_top
      ∙ ap (λ (m : ℕ). m == 0) (r.marks (top (x ∷ h) - pn) near)
      ∙ ap
          (λ (p : ℕ).
            (if leb (top (x ∷ h) - pn) (top (x ∷ h)) && member p (x ∷ h) then 1 else 0) == 0)
          {x = top (x ∷ h) - (top (x ∷ h) - pn)} {y = pn} (omega arith)
      ∙ ground arith

  inside-Agrees : pn ≤ top (x ∷ h) → top (x ∷ h) - pn < 2048 → Agrees (x ∷ h) w pn
  unfolding remember
  inside-Agrees le near =
      rw
        (
          accept-inside w pn r.started (omega (arith, r.highest_is_top))
              (omega (arith, r.highest_is_top)),
          judge-inside x h pn le near,
          mark_of le near,
        )
        (elim (Bool-cases (member pn (x ∷ h))) [
          | inl known ↦ rw known (
            r,
            ap (λ t. some (record { kind = replay_duplicate; packet_number = pn; highest = t }))
                r.highest_is_top,
          )
          | inr new ↦ rw new (inside-Refines (x ∷ h) w r pn le near r.started, refl)
        ])

-- On every history and every number, the window gives the answer that the history calls for, and
-- goes on refining the history that follows.
pub accept_authenticated-Refines :
    (h : List ℕ) (w : ReplayWindow) (pn : ℕ)
    → Refines h w
    → Refines (remember h pn) (accept_authenticated w pn).0
      × ((accept_authenticated w pn).1 ≡ judge h pn)
unfolding accept_authenticated remember judge
accept_authenticated-Refines [] w pn r = rw r.started (first-Refines [] w r pn refl, refl)
accept_authenticated-Refines (x ∷ h) w pn r = elim (dec_lt (top (x ∷ h)) pn) [
  | yes above ↦ above-Agrees x h w pn r above
  | no not_above ↦ elim (dec_lt (top (x ∷ h) - pn) 2048) [
    | yes near ↦ inside-Agrees x h w pn r (omega arith) near
    | no far ↦ old-Agrees x h w pn r (omega arith) (omega arith)
  ]
]
