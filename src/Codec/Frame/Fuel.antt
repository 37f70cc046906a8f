-- ===== src/Codec/Frame/Fuel.antt =====
-- The fuel of the loop of `ParseFrames` in internal/codec/frame.go.
use wg.Prelude.{
  ℕ, zero, suc, ◌+◌, ◌-◌, ◌≤◌, ◌≡◌, ◌≢◌, List, [], ◌∷◌, ◌++◌, length, drop, arith, ok, err, ◌>>=◌,
  fail_if, not, ltb, ◌==◌, length-drop,
}
use wg.Prelude.Int.{ℤ, pos, negsuc, ◌+ℤ◌}
use wg.Codec.Errors.{DecodeError, stuck}
use wg.Codec.Bytes.{byte_at}
use wg.Codec.Frame.{
  Frame, valid_frame_type, decode_close, validate_ip_packet, validate_body, validate_frame,
  validate_frame_combination, normalize_frame_limit,
}
use wg.Codec.Frame.Stream.{parse_frames_loop, parse_frames}
use wg.Codec.Frame.Round.{size_at, frame_at}
use wg.Codec.Tlv.Fuel.{Finishes, >>=-Finishes, fail_if-Finishes}

validate_ip_packet-Finishes :
    (packet : List ℕ) (offset : ℤ) → Finishes (validate_ip_packet packet offset)
unfolding validate_ip_packet
validate_ip_packet-Finishes packet offset = ground arith

decode_close-Finishes : (body : List ℕ) → Finishes (decode_close body >>= (λ _. ok tt))
unfolding decode_close
decode_close-Finishes body = ground arith

validate_body-Finishes : (frame : Frame) (offset : ℤ) → Finishes (validate_body frame offset)
unfolding validate_body
validate_body-Finishes frame offset = ground (
  arith,
  validate_ip_packet-Finishes frame.body (offset +ℤ pos 4),
  decode_close-Finishes frame.body,
)

validate_frame-Finishes : (frame : Frame) (offset : ℤ) → Finishes (validate_frame frame offset)
unfolding validate_frame
validate_frame-Finishes frame offset = ground (arith, validate_body-Finishes frame offset)

validate_frame_combination-Finishes :
    (frames : List Frame) → Finishes (validate_frame_combination frames)
unfolding validate_frame_combination
validate_frame_combination-Finishes frames = ground arith

normalize_frame_limit-Finishes : (max : ℤ) → Finishes (normalize_frame_limit max)
unfolding normalize_frame_limit
normalize_frame_limit-Finishes (pos n) = ground arith
normalize_frame_limit-Finishes (negsuc n) = ground arith

parse_frames_loop-Finishes :
    (fuel offset : ℕ) (rest : List ℕ) (frames : List Frame)
    → length rest ≤ fuel
    → Finishes (parse_frames_loop fuel offset rest frames)
unfolding parse_frames_loop
parse_frames_loop-Finishes zero offset [] frames h = tt
parse_frames_loop-Finishes (suc fuel) offset [] frames h = tt
parse_frames_loop-Finishes zero offset (b ∷ bs) frames h = absurd (omega arith)
parse_frames_loop-Finishes (suc fuel) offset (b ∷ bs) frames h =
    >>=-Finishes (fail_if (ltb (length (b ∷ bs)) 4) _) _ (fail_if-Finishes _ _ (λ k. cc)) λ _.
      >>=-Finishes (fail_if (not (valid_frame_type b)) _) _ (fail_if-Finishes _ _ (λ k. cc)) λ _.
        >>=-Finishes (fail_if (not (byte_at (b ∷ bs) 1 == 0)) _) _ (fail_if-Finishes _ _ (λ k. cc))
          λ _.
            >>=-Finishes (fail_if (ltb (length (b ∷ bs) - 4) (size_at (b ∷ bs))) _) _
              (fail_if-Finishes _ _ (λ k. cc))
              λ _.
                >>=-Finishes (validate_frame (frame_at (b ∷ bs)) (pos offset)) _
                  (validate_frame-Finishes _ _)
                  λ _.
                    parse_frames_loop-Finishes fuel (offset + 4 + size_at (b ∷ bs))
                      (drop (size_at (b ∷ bs)) (drop 4 (b ∷ bs)))
                      (frames ++ (frame_at (b ∷ bs) ∷ []))
                      (omega (arith, length-drop (size_at (b ∷ bs)) (drop 3 bs), length-drop 3 bs))

parse_frames-Finishes : (bytes : List ℕ) (max : ℤ) → Finishes (parse_frames bytes max)
unfolding parse_frames
parse_frames-Finishes bytes max =
    >>=-Finishes (normalize_frame_limit max) _ (normalize_frame_limit-Finishes max) λ n.
      >>=-Finishes (fail_if (length bytes == 0) _) _ (fail_if-Finishes _ _ (λ k. cc)) λ _.
        >>=-Finishes (fail_if (ltb n (length bytes)) _) _ (fail_if-Finishes _ _ (λ k. cc)) λ _.
          >>=-Finishes (parse_frames_loop (length bytes) 0 bytes []) _
            (parse_frames_loop-Finishes (length bytes) 0 bytes [] (omega arith))
            λ frames.
              >>=-Finishes (validate_frame_combination frames) _
                (validate_frame_combination-Finishes frames) λ _. tt

-- The loop of `ParseFrames` ends: an error that it returns is one of the source, never that the
-- fuel of the model ran out.
pub parse_frames_terminates :
    (bytes : List ℕ) (max : ℤ) (e : DecodeError) → parse_frames bytes max ≡ err e → e.kind ≢ stuck
parse_frames_terminates bytes max e h = rw h at (parse_frames-Finishes bytes max)
