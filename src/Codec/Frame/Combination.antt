-- ===== src/Codec/Frame/Combination.antt =====
-- Which frames may stand together, in internal/codec/frame.go.
use wg.Prelude.{
  ℕ, ◌≡◌, ◌≢◌, ◌⊎◌, inl, inr, refl, List, [], ◌∷◌, length, All, arith, ◌==◌, true, ok, fail_if, ltb,
  >>=-eq-ok,
}
use wg.Prelude.Int.{ℤ}
use wg.Codec.Frame.{
  Frame, count_type, confirm_then_ping, validate_frame_combination, normalize_frame_limit,
}
use wg.Codec.Frame.Stream.{parse_frames, parse_frames_loop}

-- What the protocol allows: an IP packet alone, a CONFIRM with a PING behind it, or frames that are
-- neither.
abbrev pub Plain : Frame → Type 0
Plain frame = (frame.type ≢ 1) × (frame.type ≢ 2)

abbrev pub IsAllowed : List Frame → Type 0
IsAllowed frames =
    All Plain frames
    ⊎ ((f : Frame) × (frames ≡ f ∷ []) × (f.type ≡ 1))
    ⊎ ((f : Frame) × (g : Frame) × (frames ≡ f ∷ g ∷ []) × (f.type ≡ 2) × (g.type ≡ 3))

All-Plain :
    (frames : List Frame) → count_type 1 frames ≡ 0 → count_type 2 frames ≡ 0 → All Plain frames
All-Plain [] a b = tt
All-Plain (f ∷ fs) a b = ((ground arith, ground arith), All-Plain fs (ground arith) (ground arith))

lone_frame :
    (frames : List Frame)
    → length frames ≡ 1
    → count_type 1 frames ≡ 1
    → (f : Frame) × (frames ≡ f ∷ []) × (f.type ≡ 1)
lone_frame [] l c = absurd (omega arith)
lone_frame (f ∷ []) l c = (f, refl, ground arith)
lone_frame (f ∷ g ∷ fs) l c = absurd (omega arith)

confirmed_pair :
    (frames : List Frame)
    → confirm_then_ping frames ≡ true
    → (f : Frame) × (g : Frame) × (frames ≡ f ∷ g ∷ []) × (f.type ≡ 2) × (g.type ≡ 3)
confirmed_pair [] c = ground arith
confirmed_pair (f ∷ []) c = ground arith
confirmed_pair (f ∷ g ∷ []) c = (f, g, refl, ground arith, ground arith)
confirmed_pair (f ∷ g ∷ h ∷ fs) c = ground arith

combination_cases :
    (frames : List Frame)
    → validate_frame_combination frames ≡ ok tt
    → ((count_type 1 frames ≡ 0) × (count_type 2 frames ≡ 0))
      ⊎ ((length frames ≡ 1) × (count_type 1 frames ≡ 1))
      ⊎ (confirm_then_ping frames ≡ true)
unfolding validate_frame_combination
combination_cases frames e = ground arith

validate_frame_combination-IsAllowed :
    (frames : List Frame) → validate_frame_combination frames ≡ ok tt → IsAllowed frames
validate_frame_combination-IsAllowed frames e = elim (combination_cases frames e) [
  | inl (a, b) ↦ inl (All-Plain frames a b)
  | inr (inl (l, c)) ↦ inr (inl (lone_frame frames l c))
  | inr (inr c) ↦ inr (inr (confirmed_pair frames c))
]

-- The frames that `ParseFrames` returns are an IP packet alone, a CONFIRM with a PING behind it,
-- or frames none of which is an IP packet or a CONFIRM.
pub parse_frames-IsAllowed :
    (bytes : List ℕ) (max : ℤ) (frames : List Frame)
    → parse_frames bytes max ≡ ok frames
    → IsAllowed frames
unfolding parse_frames
parse_frames-IsAllowed bytes max frames e =
    let (n, _, e1) = >>=-eq-ok (normalize_frame_limit max) _ e in
    let (_, _, e2) = >>=-eq-ok (fail_if (length bytes == 0) _) _ e1 in
    let (_, _, e3) = >>=-eq-ok (fail_if (ltb n (length bytes)) _) _ e2 in
    let (found, _, e4) = >>=-eq-ok (parse_frames_loop (length bytes) 0 bytes []) _ e3 in
    let (_, c, e5) = >>=-eq-ok (validate_frame_combination found) _ e4 in
    let same : found ≡ frames = cc e5 in validate_frame_combination-IsAllowed frames (rw same at c)
