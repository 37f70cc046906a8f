-- ===== src/Text/Ascii.antt =====
-- Texts on which trimming and lowering, as internal/routing and internal/privatedns use them, do
-- nothing.
use wg.Prelude.{◌<◌, ◌≡◌, refl, ap, ap₂, ◌⊎◌, false, [], ◌∷◌, arith, All}
use wg.Text.{
  Text, is_space, trim_left, trim_right, trim_space, Unicode, to_lower, has_dot, trim_dot,
}

-- No white space, so that trimming leaves the text as it is.
pub trim_right_tight : (s : Text) → All (λ c. is_space c ≡ false) s → trim_right s ≡ s
unfolding trim_right
trim_right_tight [] a = refl
trim_right_tight (c ∷ s) (p, a) = rw (p, trim_right_tight s a)

pub trim_space_tight : (s : Text) → All (λ c. is_space c ≡ false) s → trim_space s ≡ s
unfolding trim_space trim_left
trim_space_tight [] a = trim_right_tight [] a
trim_space_tight (c ∷ s) (p, a) = rw p (trim_right_tight (c ∷ s) (p, a))

pub to_lower_low :
    (u : Unicode) (s : Text) → All (λ c. (c < 128) × ((c < 0x41) ⊎ (0x5A < c))) s → to_lower u s ≡ s
unfolding to_lower
to_lower_low u [] a = refl
to_lower_low u (c ∷ s) (p, a) = ap₂ ◌∷◌ (ground arith) (to_lower_low u s a)

pub trim_dot_none : (s : Text) → has_dot s ≡ false → trim_dot s ≡ s
unfolding has_dot trim_dot
trim_dot_none [] h = refl
trim_dot_none (c ∷ []) h = ground arith
trim_dot_none (c ∷ d ∷ s) h = ap (λ (t : Text). c ∷ t) (trim_dot_none (d ∷ s) h)
