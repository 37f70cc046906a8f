-- ===== src/Codec/Frame/Close.antt =====
-- The body of a CLOSE frame of internal/codec/frame.go.
use wg.Prelude.{
  ℕ, ◌+◌, ◌-◌, ◌≤◌, ◌<◌, ◌≡◌, sym, ◌∙◌, List, ◌++◌, length, arith, not, ok, fail_if, ltb, le→ltb,
  ltb→le, length-append, take-append_at, drop-append_at, >>=-eq-ok, fail_if-eq-ok,
}
use wg.Codec.Bytes.{put_be, be-put_be, length-put_be}
use wg.Codec.Utf8.{utf8_valid}
use wg.Codec.Frame.{encode_close, decode_close}

-- `DecodeClose` reads back the reason, a uint16, and the text of a body that `EncodeClose` made.
pub decode-encode_close :
    (reason : ℕ) (diagnostic body : List ℕ)
    → reason < 65536
    → encode_close reason diagnostic ≡ ok body
    → decode_close body ≡ ok (reason, diagnostic)
unfolding encode_close decode_close
decode-encode_close reason diagnostic body r e =
    let (_, u, e1) = >>=-eq-ok (fail_if (not (utf8_valid diagnostic)) _) _ e in
    let (_, l, e2) = >>=-eq-ok (fail_if (ltb 256 (length diagnostic)) _) _ e1 in
    let written : body ≡ put_be 2 reason ++ diagnostic = cc e2 in
    let short : length diagnostic ≤ 256 = ltb→le _ _ (fail_if-eq-ok _ _ l) in
    let width = length-put_be 2 reason in
    let size : length (put_be 2 reason ++ diagnostic) ≡ 2 + length diagnostic =
      length-append (put_be 2 reason) diagnostic ∙ omega (arith, width) in
    rw written (
      rw (
        le→ltb (length (put_be 2 reason ++ diagnostic)) 2 (omega (arith, size)),
        le→ltb 256 (length (put_be 2 reason ++ diagnostic) - 2) (omega (arith, size, short)),
        drop-append_at 2 (put_be 2 reason) diagnostic (sym width),
        take-append_at 2 (put_be 2 reason) diagnostic (sym width),
        fail_if-eq-ok _ _ u,
        be-put_be 2 reason (omega (arith, r)),
      ))
