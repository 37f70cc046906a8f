-- ===== src/Codec/Frame/Stream.antt =====
-- `ParseFrames` and `MarshalFrames` of internal/codec/frame.go.
use wg.Prelude.{
  ℕ, zero, suc, ◌+◌, ◌-◌, not, List, [], ◌∷◌, ◌++◌, length, drop, ltb, ◌==◌, ok, err, ◌>>=◌, ◌>>◌,
  fail_if,
}
use wg.Prelude.Int.{ℤ, pos, negsuc}
use wg.Codec.Errors.{
  decode_error, Decoded, truncated, length_error, limit, unknown_frame_type, frame_flags, stuck,
}
use wg.Codec.Bytes.{be, put_be, byte_at}
use wg.Codec.Payload.{max_uint16, segment}
use wg.Codec.Frame.{
  Frame, frame_header_size, valid_frame_type, normalize_frame_limit, validate_frame,
  validate_frame_combination,
}

-- The loop of `ParseFrames`. `rest` is `data[offset:]`, not empty in the last clause; `frames` are
-- those read before. Each round takes a byte at least, so the length of the input is fuel enough.
unfoldable pub parse_frames_loop : ℕ → ℕ → List ℕ → List Frame → Decoded (List Frame)
parse_frames_loop fuel offset [] frames = ok frames
parse_frames_loop zero offset (b ∷ bs) frames = err (decode_error stuck (pos offset) "frames")
parse_frames_loop (suc fuel) offset (b ∷ bs) frames = do
  let rest = b ∷ bs
  fail_if (ltb (length rest) frame_header_size) (decode_error truncated (pos offset) "frame.header")
  let frame_type = byte_at rest 0
  let flags = byte_at rest 1
  let size = be (segment rest 2 2)
  fail_if (not (valid_frame_type frame_type))
      (decode_error unknown_frame_type (pos offset) "frame_type")
  fail_if (not (flags == 0)) (decode_error frame_flags (pos (offset + 1)) "frame_flags")
  fail_if (ltb (length rest - frame_header_size) size)
      (decode_error truncated (pos (offset + frame_header_size)) "frame.body")
  let frame : Frame = record {
    type = frame_type;
    flags = 0;
    body = segment rest frame_header_size size;
  }
  validate_frame frame (pos offset)
  parse_frames_loop fuel (offset + frame_header_size + size)
      (drop size (drop frame_header_size rest)) (frames ++ (frame ∷ []))

unfoldable pub parse_frames : List ℕ → ℤ → Decoded (List Frame)
parse_frames bytes max_plaintext = do
  size_limit ← normalize_frame_limit max_plaintext
  fail_if (length bytes == 0) (decode_error length_error (pos 0) "frames")
  fail_if (ltb size_limit (length bytes)) (decode_error limit (pos 0) "frames")
  frames ← parse_frames_loop (length bytes) 0 bytes []
  validate_frame_combination frames
  ok frames

-- The first loop of `MarshalFrames`. The test `total > limit - header - length`, on an `int`, is
-- written without the subtraction.
unfoldable pub check_frames : ℕ → ℕ → List Frame → Decoded (Unit {0})
check_frames size_limit total [] = ok tt
check_frames size_limit total (frame ∷ frames) = do
  validate_frame frame (negsuc 0)
  fail_if (ltb max_uint16 (length frame.body)) (decode_error length_error (negsuc 0) "frame.body")
  fail_if (ltb size_limit (total + frame_header_size + length frame.body))
      (decode_error limit (negsuc 0) "frames")
  check_frames size_limit (total + frame_header_size + length frame.body) frames

-- The second loop of `MarshalFrames`.
unfoldable pub emit_frames : List Frame → List ℕ
emit_frames [] = []
emit_frames (frame ∷ frames) =
    frame.type ∷ 0 ∷ (put_be 2 (length frame.body) ++ (frame.body ++ emit_frames frames))

unfoldable pub marshal_frames : List Frame → ℤ → Decoded (List ℕ)
marshal_frames frames max_plaintext = do
  size_limit ← normalize_frame_limit max_plaintext
  fail_if (length frames == 0) (decode_error length_error (pos 0) "frames")
  validate_frame_combination frames
  check_frames size_limit 0 frames
  ok (emit_frames frames)
