-- ===== src/Codec/Frame/RoundTrip.antt =====
-- Parser and serializer of internal/codec/frame.go against each other.
use wg.Prelude.{
  ◌↔◌, ℕ, ◌≤◌, ◌≡◌, sym, ap, ◌∙◌, List, [], ◌∷◌, length, All, arith, ok, fail_if, ltb, le→ltb,
  ltb→le, false, ◌==◌, >>=-eq-ok, fail_if-eq-ok,
}
use wg.Prelude.Int.{ℤ, pos, negsuc}
use wg.Codec.Bytes.{IsBytes}
use wg.Codec.Frame.{Frame, validate_frame_combination, normalize_frame_limit}
use wg.Codec.Frame.Stream.{
  parse_frames_loop, parse_frames, check_frames, emit_frames, marshal_frames,
}
use wg.Codec.Frame.Round.{IsFrame, length-emit_frames, check_frames_of, check_frames_ok, nil_size}
use wg.Codec.Frame.Loop.{parse_frames_loop_ok, parse_frames_loop_of}

normalize_frame_limit-le : (max : ℤ) (n : ℕ) → normalize_frame_limit max ≡ ok n → n ≤ 65535
unfolding normalize_frame_limit
normalize_frame_limit-le (pos m) n e = ground arith
normalize_frame_limit-le (negsuc m) n e = ground arith

-- What success means on either side: the same list of checks.
record Agrees (frames : List Frame) (max : ℤ) (bytes : List ℕ) : Type 0 where
  pub size_limit : ℕ
  pub limit_ok : normalize_frame_limit max ≡ ok size_limit
  pub combined : validate_frame_combination frames ≡ ok tt
  pub valid : All IsFrame frames
  pub written : bytes ≡ emit_frames frames
  pub some_frame : (length frames == 0) ≡ false
  pub some_byte : (length bytes == 0) ≡ false
  pub fits : length bytes ≤ size_limit

not_empty :
    (frames : List Frame)
    → (length frames == 0) ≡ false
    → (length (emit_frames frames) == 0) ≡ false
not_empty [] h = ground arith
not_empty (frame ∷ frames) h = ground (arith, length-emit_frames frame frames)

no_frames :
    (frames : List Frame)
    → (length (emit_frames frames) == 0) ≡ false
    → (length frames == 0) ≡ false
no_frames [] h = let z = nil_size in ground (arith, z)
no_frames (frame ∷ frames) h = ground arith

marshal_frames_ok :
    (frames : List Frame) (max : ℤ) (bytes : List ℕ)
    → marshal_frames frames max ≡ ok bytes
    → Agrees frames max bytes
unfolding marshal_frames
marshal_frames_ok frames max bytes e =
    let (n, l, e1) = >>=-eq-ok (normalize_frame_limit max) _ e in
    let (_, z, e2) = >>=-eq-ok (fail_if (length frames == 0) _) _ e1 in
    let (_, c, e3) = >>=-eq-ok (validate_frame_combination frames) _ e2 in
    let (_, k, e4) = >>=-eq-ok (check_frames n 0 frames) _ e3 in
    let (v, fits) = check_frames_ok n 0 frames (omega arith) k in
    let written : bytes ≡ emit_frames frames = cc e4 in
    record {
      size_limit = n;
      limit_ok = l;
      combined = c;
      valid = v;
      written = written;
      some_frame = fail_if-eq-ok _ _ z;
      some_byte = rw written (not_empty frames (fail_if-eq-ok _ _ z));
      fits = rw written (omega (arith, fits));
    }

marshal_frames_of :
    (frames : List Frame) (max : ℤ) (bytes : List ℕ)
    → Agrees frames max bytes
    → marshal_frames frames max ≡ ok bytes
unfolding marshal_frames
marshal_frames_of frames max bytes m =
    rw
      (
        m.limit_ok,
        m.some_frame,
        m.combined,
        check_frames_of m.size_limit 0 frames (normalize_frame_limit-le max m.size_limit m.limit_ok)
            m.valid (omega (arith, m.fits, ap length m.written)),
      )
      (ap ok (sym m.written))

parse_frames_ok :
    (bytes : List ℕ) (max : ℤ) (frames : List Frame)
    → IsBytes bytes
    → parse_frames bytes max ≡ ok frames
    → Agrees frames max bytes
unfolding parse_frames
parse_frames_ok bytes max frames b e =
    let (n, l, e1) = >>=-eq-ok (normalize_frame_limit max) _ e in
    let (_, z, e2) = >>=-eq-ok (fail_if (length bytes == 0) _) _ e1 in
    let (_, k, e3) = >>=-eq-ok (fail_if (ltb n (length bytes)) _) _ e2 in
    let (found, p, e4) = >>=-eq-ok (parse_frames_loop (length bytes) 0 bytes []) _ e3 in
    let (_, c, e5) = >>=-eq-ok (validate_frame_combination found) _ e4 in
    let same : found ≡ frames = cc e5 in
    let s = parse_frames_loop_ok (length bytes) 0 bytes [] frames b (rw same at p) in
    let written : bytes ≡ emit_frames frames = sym s.encoding ∙ ap emit_frames (sym s.out_is) in
    record {
      size_limit = n;
      limit_ok = l;
      combined = rw same at c;
      valid = rw s.out_is s.valid;
      written = written;
      some_frame = no_frames frames (rw written at (fail_if-eq-ok _ _ z));
      some_byte = fail_if-eq-ok _ _ z;
      fits = ltb→le _ _ (fail_if-eq-ok _ _ k);
    }

parse_frames_of :
    (bytes : List ℕ) (max : ℤ) (frames : List Frame)
    → Agrees frames max bytes
    → parse_frames bytes max ≡ ok frames
unfolding parse_frames
parse_frames_of bytes max frames m =
    let small = normalize_frame_limit-le max m.size_limit m.limit_ok in
    let size : length bytes ≡ length (emit_frames frames) = ap length m.written in
    let loop : parse_frames_loop (length bytes) 0 bytes [] ≡ ok frames =
      ap (λ (bs : List ℕ). parse_frames_loop (length bytes) 0 bs []) m.written
      ∙ parse_frames_loop_of (length bytes) 0 frames [] m.valid (omega (arith, size))
          (omega (arith, size, small, m.fits)) in
    rw (m.limit_ok, m.some_byte, le→ltb m.size_limit (length bytes) m.fits, loop, m.combined)

-- `ParseFrames` reads back the frames that `MarshalFrames` writes, under the same limit.
pub parse-marshal_frames :
    (frames : List Frame) (max : ℤ) (bytes : List ℕ)
    → marshal_frames frames max ≡ ok bytes
    → parse_frames bytes max ≡ ok frames
parse-marshal_frames frames max bytes e =
    parse_frames_of bytes max frames (marshal_frames_ok frames max bytes e)

-- A plaintext of bytes that `ParseFrames` accepts is the one that `MarshalFrames` writes for its
-- frames, under the same limit.
pub marshal-parse_frames :
    (bytes : List ℕ) (max : ℤ) (frames : List Frame)
    → IsBytes bytes
    → parse_frames bytes max ≡ ok frames
    → marshal_frames frames max ≡ ok bytes
marshal-parse_frames bytes max frames b e =
    marshal_frames_of frames max bytes (parse_frames_ok bytes max frames b e)

-- `ParseFrames` of a plaintext of bytes gives frames exactly when `MarshalFrames` of these frames,
-- under the same limit, gives this plaintext.
pub parse_frames_iff :
    (bytes : List ℕ) (max : ℤ) (frames : List Frame)
    → IsBytes bytes
    → (parse_frames bytes max ≡ ok frames) ↔ (marshal_frames frames max ≡ ok bytes)
parse_frames_iff bytes max frames b =
    (marshal-parse_frames bytes max frames b, parse-marshal_frames frames max bytes)
