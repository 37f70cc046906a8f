-- ===== src/Codec/Frame/Loop.antt =====
-- The loop of `ParseFrames` of internal/codec/frame.go against the encoding of frames.
use wg.Prelude.{
  ℕ, zero, suc, ◌+◌, ◌-◌, ◌≤◌, ◌<◌, ◌≡◌, refl, sym, ap, ◌∙◌, List, [], ◌∷◌, ◌++◌, length, take,
  drop, All, arith, append_assoc, append-nil, ok, le→ltb, length-append, length-drop,
  take-append_at, drop-append_at, All-drop,
}
use wg.Prelude.Int.{pos}
use wg.Codec.Bytes.{IsBytes, be, put_be, be-put_be, length-put_be}
use wg.Codec.Frame.{Frame}
use wg.Codec.Frame.Stream.{parse_frames_loop, emit_frames}
use wg.Codec.Frame.Round.{
  IsFrame, validate_frame_of, length-emit_frames, valid_frame_type_of, size_at, frame_at, round_ok,
  join_frame,
}

-- A successful parse reads off frames, whose encoding is the input.
pub record FrameStream (rest : List ℕ) (frames out : List Frame) : Type 0 where
  pub read : List Frame
  pub out_is : out ≡ frames ++ read
  pub encoding : emit_frames read ≡ rest
  pub valid : All IsFrame read

empty-FrameStream : (frames out : List Frame) → out ≡ frames → FrameStream [] frames out
unfolding emit_frames
empty-FrameStream frames out e = record {
  read = [];
  out_is = e ∙ sym (append-nil frames);
  encoding = refl;
  valid = tt;
}

pub parse_frames_loop_ok :
    (fuel offset : ℕ) (rest : List ℕ) (frames out : List Frame)
    → IsBytes rest
    → parse_frames_loop fuel offset rest frames ≡ ok out
    → FrameStream rest frames out
unfolding parse_frames_loop
parse_frames_loop_ok zero offset [] frames out b e = empty-FrameStream frames out (ground arith)
parse_frames_loop_ok (suc fuel) offset [] frames out b e =
    empty-FrameStream frames out (ground arith)
parse_frames_loop_ok zero offset (x ∷ rest) frames out b e = ground arith
parse_frames_loop_ok (suc fuel) offset (x ∷ rest) frames out b e =
    let r = round_ok fuel offset x rest frames out e in
    let frame = frame_at (x ∷ rest) in
    let n = size_at (x ∷ rest) in
    let s =
      parse_frames_loop_ok fuel (offset + 4 + n) (drop n (drop 4 (x ∷ rest)))
        (frames ++ (frame ∷ [])) out (All-drop _ n _ (All-drop _ 4 (x ∷ rest) b)) r.next in
    record {
      read = frame ∷ s.read;
      out_is = s.out_is ∙ append_assoc frames (frame ∷ []) s.read;
      encoding = join_frame (x ∷ rest) s.read b r.long r.no_flags r.enough s.encoding;
      valid = (r.frame_ok, s.valid);
    }

abbrev unflagged : Frame → Frame
unflagged frame = record frame { flags = 0 }

frame-unflagged : (frame : Frame) → IsFrame frame → frame ≡ unflagged frame
frame-unflagged frame v = ap (λ (n : ℕ). record frame { flags = n }) v.0

-- One round, on a stream whose first frame is `frame`.
round_of :
    (fuel offset : ℕ) (frame : Frame) (bs rest : List ℕ) (frames : List Frame)
    → 2 ≤ length bs
    → be (take 2 bs) ≡ length frame.body
    → drop 2 bs ≡ frame.body ++ rest
    → IsFrame (unflagged frame)
    → parse_frames_loop (suc fuel) offset (frame.type ∷ 0 ∷ bs) frames
      ≡ parse_frames_loop fuel
          (offset + 4 + length frame.body)
          rest
          (frames ++ (unflagged frame ∷ []))
unfolding parse_frames_loop
round_of fuel offset frame bs rest frames long size split v =
    let whole : length bs - 2 ≡ length frame.body + length rest =
      sym (length-drop 2 bs) ∙ ap length split ∙ length-append frame.body rest in
    rw (
      le→ltb (suc (suc (length bs))) 4 (omega (arith, long)),
      valid_frame_type_of (unflagged frame) v,
      size,
      le→ltb (suc (suc (length bs)) - 4) (length frame.body) (omega (arith, whole, long)),
      split,
      take-append_at (length frame.body) frame.body rest refl,
      drop-append_at (length frame.body) frame.body rest refl,
      validate_frame_of (unflagged frame) (pos offset) v,
    )

first_round :
    (fuel offset : ℕ) (frame : Frame) (read frames : List Frame)
    → IsFrame frame
    → length frame.body < 65536
    → parse_frames_loop (suc fuel) offset (emit_frames (frame ∷ read)) frames
      ≡ parse_frames_loop fuel
          (offset + 4 + length frame.body)
          (emit_frames read)
          (frames ++ (frame ∷ []))
unfolding emit_frames
first_round fuel offset frame read frames v l =
    let width = length-put_be 2 (length frame.body) in
    let size = put_be 2 (length frame.body) in
    let bs = size ++ (frame.body ++ emit_frames read) in
    let plain = frame-unflagged frame v in
    round_of fuel offset frame bs (emit_frames read) frames
      (omega (arith, width, length-append size (frame.body ++ emit_frames read)))
      (ap be (take-append_at 2 size (frame.body ++ emit_frames read) (sym width))
        ∙ be-put_be 2 (length frame.body) (omega (arith, l)))
      (drop-append_at 2 size (frame.body ++ emit_frames read) (sym width)) (rw plain at v)
    ∙ ap
        (λ (f : Frame).
          parse_frames_loop fuel (offset + 4 + length frame.body) (emit_frames read)
            (frames ++ (f ∷ [])))
        (sym plain)

parse_frames_loop_nil :
    (fuel offset : ℕ) (frames : List Frame)
    → parse_frames_loop fuel offset (emit_frames []) frames ≡ ok (frames ++ [])
unfolding parse_frames_loop emit_frames
parse_frames_loop_nil zero offset frames = ap ok (sym (append-nil frames))
parse_frames_loop_nil (suc fuel) offset frames = ap ok (sym (append-nil frames))

-- The loop on the encoding of frames, with fuel for each byte.
pub parse_frames_loop_of :
    (fuel offset : ℕ) (read frames : List Frame)
    → All IsFrame read
    → length (emit_frames read) ≤ fuel
    → length (emit_frames read) ≤ 65535
    → parse_frames_loop fuel offset (emit_frames read) frames ≡ ok (frames ++ read)
parse_frames_loop_of fuel offset [] frames v enough fits = parse_frames_loop_nil fuel offset frames
parse_frames_loop_of zero offset (frame ∷ read) frames v enough fits =
    absurd (omega (arith, length-emit_frames frame read))
parse_frames_loop_of (suc fuel) offset (frame ∷ read) frames (v, vs) enough fits =
    first_round fuel offset frame read frames v (omega (arith, fits, size))
    ∙ parse_frames_loop_of fuel (offset + 4 + length frame.body) read (frames ++ (frame ∷ [])) vs
        (omega (arith, enough, size)) (omega (arith, fits, size))
    ∙ ap ok (append_assoc frames (frame ∷ []) read)
  where
    size : length (emit_frames (frame ∷ read)) ≡ 4 + length frame.body + length (emit_frames read)
    size = length-emit_frames frame read
