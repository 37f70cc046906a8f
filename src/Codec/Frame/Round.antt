-- ===== src/Codec/Frame/Round.antt =====
-- One frame of internal/codec/frame.go: its checks, its encoding, and the round of the parser's loop
-- that reads it.
use wg.Prelude.{
  ℕ, suc, ◌+◌, ◌-◌, ◌≤◌, ◌≡◌, refl, sym, ap, ap₂, ◌∙◌, List, [], ◌∷◌, ◌++◌, length, take, drop, All,
  arith, ok, fail_if, ltb, le→ltb, ltb→le, true, not, ◌==◌, length-append, length-take,
  take-append-drop, >>=-eq-ok, fail_if-eq-ok,
}
use wg.Prelude.Int.{ℤ, pos, negsuc, ◌+ℤ◌}
use wg.Codec.Bytes.{IsBytes, be, put_be, byte_at, put_be-be, length-put_be}
use wg.Codec.Payload.{segment}
use wg.Codec.Frame.{Frame, valid_frame_type, validate_ip_packet, validate_body, validate_frame}
use wg.Codec.Frame.Stream.{parse_frames_loop, check_frames, emit_frames}

-- The checks do not depend on the offset, which only goes into errors.
validate_ip_packet_offset :
    (packet : List ℕ) (a b : ℤ)
    → validate_ip_packet packet a ≡ ok tt
    → validate_ip_packet packet b ≡ ok tt
unfolding validate_ip_packet
validate_ip_packet_offset packet a b e = ground arith

validate_body_offset :
    (frame : Frame) (a b : ℤ) → validate_body frame a ≡ ok tt → validate_body frame b ≡ ok tt
unfolding validate_body
validate_body_offset frame a b e =
    ground (arith, validate_ip_packet_offset frame.body (a +ℤ pos 4) (b +ℤ pos 4))

abbrev pub IsFrame : Frame → Type 0
IsFrame frame = (frame.flags ≡ 0) × (validate_frame frame (negsuc 0) ≡ ok tt)

validate_frame_ok : (frame : Frame) (a : ℤ) → validate_frame frame a ≡ ok tt → IsFrame frame
unfolding validate_frame
validate_frame_ok frame a e = ground (arith, validate_body_offset frame a (negsuc 0))

pub validate_frame_of : (frame : Frame) (a : ℤ) → IsFrame frame → validate_frame frame a ≡ ok tt
unfolding validate_frame
validate_frame_of frame a (z, e) = ground (arith, validate_body_offset frame (negsuc 0) a)

pub valid_frame_type_of : (frame : Frame) → IsFrame frame → valid_frame_type frame.type ≡ true
unfolding validate_frame
valid_frame_type_of frame (z, e) = ground arith

pub length-emit_frames :
    (frame : Frame) (frames : List Frame)
    → length (emit_frames (frame ∷ frames)) ≡ 4 + length frame.body + length (emit_frames frames)
unfolding emit_frames
length-emit_frames frame frames = omega (
  arith,
  length-append (put_be 2 (length frame.body)) (frame.body ++ emit_frames frames),
  length-append frame.body (emit_frames frames),
  length-put_be 2 (length frame.body),
)

pub nil_size : length (emit_frames []) ≡ 0
unfolding emit_frames
nil_size = refl

pub check_frames_of :
    (max total : ℕ) (frames : List Frame)
    → max ≤ 65535
    → All IsFrame frames
    → total + length (emit_frames frames) ≤ max
    → check_frames max total frames ≡ ok tt
unfolding check_frames
check_frames_of max total [] m v fits = refl
check_frames_of max total (frame ∷ frames) m (v, vs) fits =
    let size = length-emit_frames frame frames in
    rw (
      validate_frame_of frame (negsuc 0) v,
      le→ltb 65535 (length frame.body) (omega (arith, size)),
      le→ltb max (total + 4 + length frame.body) (omega (arith, size)),
      check_frames_of max (total + 4 + length frame.body) frames m vs (omega (arith, size)),
    )

pub check_frames_ok :
    (max total : ℕ) (frames : List Frame)
    → total ≤ max
    → check_frames max total frames ≡ ok tt
    → All IsFrame frames × (total + length (emit_frames frames) ≤ max)
unfolding check_frames
check_frames_ok max total [] t e = (tt, rw nil_size (omega arith))
check_frames_ok max total (frame ∷ frames) t e =
    let (_, v, e1) = >>=-eq-ok (validate_frame frame (negsuc 0)) _ e in
    let (_, _, e2) = >>=-eq-ok (fail_if (ltb 65535 (length frame.body)) _) _ e1 in
    let (_, m, e3) = >>=-eq-ok (fail_if (ltb max (total + 4 + length frame.body)) _) _ e2 in
    let below : total + 4 + length frame.body ≤ max = ltb→le _ _ (fail_if-eq-ok _ _ m) in
    let (vs, fits) = check_frames_ok max (total + 4 + length frame.body) frames below e3 in
    (
      (validate_frame_ok frame (negsuc 0) v, vs),
      omega (arith, fits, length-emit_frames frame frames),
    )

-- The frame at the front of a stream.
abbrev pub size_at : List ℕ → ℕ
size_at rest = be (segment rest 2 2)

abbrev pub frame_at : List ℕ → Frame
frame_at rest = record { type = byte_at rest 0; flags = 0; body = segment rest 4 (size_at rest) }

-- A round of the loop that led to success.
pub record Reads (fuel offset : ℕ) (rest : List ℕ) (frames out : List Frame) : Type 0 where
  pub long : 4 ≤ length rest
  pub no_flags : byte_at rest 1 ≡ 0
  pub enough : size_at rest ≤ length rest - 4
  pub frame_ok : IsFrame (frame_at rest)
  pub next :
      parse_frames_loop fuel
        (offset + 4 + size_at rest)
        (drop (size_at rest) (drop 4 rest))
        (frames ++ (frame_at rest ∷ []))
      ≡ ok out

pub round_ok :
    (fuel offset : ℕ) (b : ℕ) (bs : List ℕ) (frames out : List Frame)
    → parse_frames_loop (suc fuel) offset (b ∷ bs) frames ≡ ok out
    → Reads fuel offset (b ∷ bs) frames out
unfolding parse_frames_loop
round_ok fuel offset b bs frames out e =
    let rest = b ∷ bs in
    let (_, long, e1) = >>=-eq-ok (fail_if (ltb (length (b ∷ bs)) 4) _) _ e in
    let (_, _, e2) = >>=-eq-ok (fail_if (not (valid_frame_type b)) _) _ e1 in
    let (_, flags, e3) = >>=-eq-ok (fail_if (not (byte_at (b ∷ bs) 1 == 0)) _) _ e2 in
    let (_, enough, e4) =
      >>=-eq-ok (fail_if (ltb (length (b ∷ bs) - 4) (size_at (b ∷ bs))) _) _ e3 in
    let (_, valid, e5) = >>=-eq-ok (validate_frame (frame_at (b ∷ bs)) (pos offset)) _ e4 in
    let unflagged = fail_if-eq-ok _ _ flags in
    record {
      long = ltb→le _ _ (fail_if-eq-ok _ _ long);
      no_flags = ground (arith, unflagged);
      enough = ltb→le _ _ (fail_if-eq-ok _ _ enough);
      frame_ok = validate_frame_ok (frame_at (b ∷ bs)) (pos offset) valid;
      next = e5;
    }

pub join_frame :
    (rest : List ℕ) (frames : List Frame)
    → IsBytes rest
    → 4 ≤ length rest
    → byte_at rest 1 ≡ 0
    → size_at rest ≤ length rest - 4
    → emit_frames frames ≡ drop (size_at rest) (drop 4 rest)
    → emit_frames (frame_at rest ∷ frames) ≡ rest
unfolding emit_frames
join_frame [] frames b long z enough e = absurd (omega arith)
join_frame (w ∷ []) frames b long z enough e = absurd (omega arith)
join_frame (w ∷ x ∷ []) frames b long z enough e = absurd (omega arith)
join_frame (w ∷ x ∷ y ∷ []) frames b long z enough e = absurd (omega arith)
join_frame (t ∷ x ∷ y ∷ z ∷ rest) frames (bt, (bx, (by, (bz, b)))) long no_flags enough e =
    let n = size_at (t ∷ x ∷ y ∷ z ∷ rest) in
    let size : length (take n rest) ≡ n = omega (arith, length-take n rest, enough) in
    ap₂ (λ (f : ℕ) (l : List ℕ). t ∷ f ∷ l) (sym no_flags)
      (ap₂ ◌++◌ (ap (put_be 2) size ∙ put_be-be 2 (y ∷ z ∷ []) (by, (bz, tt)) refl)
        (ap (λ (l : List ℕ). take n rest ++ l) e ∙ take-append-drop n rest))
